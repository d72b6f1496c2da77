-- ===== src/Mime/Tests.antt =====
-- Runs of src/mime.c.
use local_marks.Prelude.{◌≡◌, some, map}
use local_marks.Prelude.Bytes.{codes, to_lower}
use local_marks.Mime.{mime_from_path}
use local_marks.Mime.Case.{mime_from_path_lower}

upper_case :
    mime_from_path (some (map to_lower (codes "a/B.PNG"))) ≡ mime_from_path (some (codes "a/B.PNG"))
upper_case = mime_from_path_lower (codes "a/B.PNG")
