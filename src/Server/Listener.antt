-- ===== src/Server/Listener.antt =====
-- What `make_listener` of src/server.c does with the descriptors it opens.
use local_marks.Prelude.{
  ℕ, ◌≡◌, inl, inr, refl, sym, ap, ◌∙◌, Bool, true, false, Option, none, some, List, [], ◌∷◌, ◌++◌,
  append-nil, append_assoc, Option-cases, Bool-cases, if◌then◌else◌,
}
use local_marks.Server.Listen.{Candidate, bind_first, listen_on, make_listener}

-- the descriptors that `socket` gives for these addresses
unfoldable pub opened : List Candidate → List ℕ
opened [] = []
opened (c ∷ cs) = elim c.socket [ none ↦ opened cs | some lfd ↦ lfd ∷ opened cs ]

-- the descriptor that is returned, as a list
unfoldable pub kept : Option ℕ → List ℕ
kept none = []
kept (some lfd) = lfd ∷ []

-- the addresses that are tried: up to the first whose socket is bound, or all
unfoldable pub tried : List Candidate → List Candidate
tried [] = []
tried (c ∷ cs) = elim c.socket [
  | none ↦ c ∷ tried cs
  | some lfd ↦ if c.bind_ok then c ∷ [] else c ∷ tried cs
]

-- the first socket that is bound
unfoldable pub first_bound : List Candidate → Option ℕ
first_bound [] = none
first_bound (c ∷ cs) = elim c.socket [
  | none ↦ first_bound cs
  | some lfd ↦ if c.bind_ok then some lfd else first_bound cs
]

-- What the loop closes, behind what was closed before, and then what it returns, is what `socket` opened.
bind_first-Tries :
    (cs : List Candidate) (closed : List ℕ)
    → (closed ++ opened (tried cs) ≡ (bind_first cs closed).1 ++ kept (bind_first cs closed).0)
      × ((bind_first cs closed).0 ≡ first_bound cs)
unfolding bind_first opened kept tried first_bound
bind_first-Tries [] closed = (refl, refl)
bind_first-Tries (c ∷ cs) closed = elim (Option-cases c.socket) [
  | inl no_socket ↦ simp no_socket (bind_first-Tries cs closed)
  | inr (lfd, fresh) ↦ elim (Bool-cases c.bind_ok) [
    | inl bound ↦ simp (fresh, bound) (refl, refl)
    | inr refused ↦
        let (balance, first) = bind_first-Tries cs (closed ++ lfd ∷ []) in
        simp (fresh, refused)
          (sym (append_assoc closed (lfd ∷ []) (opened (tried cs))) ∙ balance, first)
  ]
]

-- and so does `listen`, which closes what it refuses
listen_on-Tries :
    (listen_ok : Bool) (all : List ℕ) (r : Option ℕ × List ℕ)
    → all ≡ r.1 ++ kept r.0
    → (all ≡ (listen_on listen_ok r).1 ++ kept (listen_on listen_ok r).0)
      × ((listen_on listen_ok r).0 ≡ (if listen_ok then r.0 else none))
unfolding listen_on kept
listen_on-Tries true all (none, closed) balance = (balance, refl)
listen_on-Tries false all (none, closed) balance = (balance, refl)
listen_on-Tries true all (some lfd, closed) balance = (balance, refl)
listen_on-Tries false all (some lfd, closed) balance =
    (balance ∙ sym (append-nil (closed ++ lfd ∷ [])), refl)

-- `make_listener` returns the first socket that is bound, if `listen` accepts it, and else nothing. The
-- descriptors that `socket` opened for the addresses up to that one, in their order, are those that
-- it closed and then the one it returns, so none is lost and none is closed and returned.
pub make_listener-NoLeak :
    (cs : List Candidate) (listen_ok : Bool)
    → (opened (tried cs)
        ≡ (make_listener (some cs) listen_ok).1 ++ kept (make_listener (some cs) listen_ok).0)
      × ((make_listener (some cs) listen_ok).0 ≡ (if listen_ok then first_bound cs else none))
unfolding make_listener
make_listener-NoLeak cs listen_ok =
    let (balance, first) = bind_first-Tries cs [] in
    let (total, result) =
      listen_on-Tries listen_ok (opened (tried cs)) (bind_first cs []) balance in
    (total, result ∙ ap (λ o. if listen_ok then o else none) first)
