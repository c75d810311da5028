-- ===== src/Sip/Registrar/Laws.antt =====
-- The registrar against the history of its requests.
use cell_bridge.Ints.{ℤ}
use cell_bridge.Sip.Registrar.{
  Registrar, get, register, Registration, is_zero, expiry, new_registrar,
}
use cell_bridge.Base.{
  Text, List, ℕ, ◌∷◌, ◌≤◌, Option, ◌≡◌, [], if◌then◌else◌, some, arith, Bool-cases, Option-cases,
  text_eq, ltb, inl, none, inr, text_eq_iff, refl, ◌∙◌, ap,
}
use cell_bridge.Dict.{text_key, find, find-delete, find-assign}

-- The requests that change the registrar.
pub data Request : Type 0 where
  on_register : Text → Text → Text → ℤ → ℕ → ℕ → Request
  on_get : ℕ → Text → Request

unfoldable pub serve : Request → Registrar → Registrar
serve (on_register u c t s seen now) regs = register u c t s seen now regs
serve (on_get now u) regs = (get now u regs).0

unfoldable pub serve_all : List Request → Registrar → Registrar
serve_all [] regs = regs
serve_all (r ∷ requests) regs = serve_all requests (serve r regs)

-- The look-ups of a history are at `now` at the latest.
abbrev pub NotAfter : ℕ → List Request → Type 0
NotAfter now [] = Unit
NotAfter now (on_register u c t s seen at ∷ requests) = NotAfter now requests
NotAfter now (on_get at u ∷ requests) = (at ≤ now) × NotAfter now requests

-- What the last registration of a user in a history says, on top of `before`.
abbrev pub last_word : Text → List Request → Option Registration → Option Registration
last_word v [] before = before
last_word v (on_get at u ∷ requests) before = last_word v requests before
last_word v (on_register u c t s seen now ∷ requests) before = last_word v requests (
    if text_eq u v
    then (if is_zero s
        then none
        else some (record {
          username = u;
          contact = c;
          expires = expiry now s;
          transport = t;
          last_seen = seen;
        }))
    else before)

-- A registration that has not run out.
abbrev pub live : ℕ → Option Registration → Option Registration
live now none = none
live now (some reg) = if ltb reg.expires now then none else some reg

get-live : (now : ℕ) (v : Text) (regs : Registrar) → (get now v regs).1 ≡ live now (find v regs)
unfolding get
get-live now v regs = ground arith

register-find :
    (v u c t : Text) (s : ℤ) (seen now : ℕ) (regs : Registrar)
    → find v (register u c t s seen now regs)
      ≡ last_word v (on_register u c t s seen now ∷ []) (find v regs)
unfolding register
register-find v u c t s seen now regs = elim (Bool-cases (is_zero s)) [
  | inl p ↦ rw p (find-delete u v regs)
  | inr p ↦ rw p (find-assign u v _ regs)
]

-- A look-up in between forgets only what has run out.
get-find :
    (now at : ℕ) (v u : Text) (regs : Registrar)
    → at ≤ now
    → live now (find v (get at u regs).0) ≡ live now (find v regs)
unfolding get
get-find now at v u regs h = elim (Option-cases (find u regs)) [
  | inl e ↦ rw e refl
  | inr (reg, e) ↦ elim (Bool-cases (ltb reg.expires at)) [
    | inr p ↦ rw e (rw p refl)
    | inl p ↦ elim (Bool-cases (text_eq u v)) [
      | inl q ↦
          let same : u ≡ v = (text_eq_iff u v).0 q in
          ground (arith, find-delete u v regs, rw same at e)
      | inr q ↦ ground (arith, find-delete u v regs)
    ]
  ]
]

last_word-live :
    (now : ℕ) (v : Text) (requests : List Request) (a b : Option Registration)
    → live now a ≡ live now b
    → live now (last_word v requests a) ≡ live now (last_word v requests b)
last_word-live now v [] a b h = h
last_word-live now v (on_get at u ∷ requests) a b h = last_word-live now v requests a b h
last_word-live now v (on_register u c t s seen at ∷ requests) a b h =
    elim (Bool-cases (text_eq u v)) [
      | inl p ↦ rw p refl
      | inr p ↦ rw p (last_word-live now v requests a b h)
    ]

serve_all-last_word :
    (now : ℕ) (v : Text) (requests : List Request) (regs : Registrar)
    → NotAfter now requests
    → live now (find v (serve_all requests regs)) ≡ live now (last_word v requests (find v regs))
unfolding serve_all serve
serve_all-last_word now v [] regs h = refl
serve_all-last_word now v (on_get at u ∷ requests) regs h =
    serve_all-last_word now v requests (get at u regs).0 h.1
    ∙ last_word-live now v requests (find v (get at u regs).0) (find v regs)
        (get-find now at v u regs h.0)
serve_all-last_word now v (on_register u c t s seen at ∷ requests) regs h =
    serve_all-last_word now v requests (register u c t s seen at regs) h
    ∙ ap (λ o. live now (last_word v requests o)) (register-find v u c t s seen at regs)

-- After any registrations and look-ups on a new registrar, the look-ups at `now` at the latest, `Get`
-- at `now` returns what the last registration of that user says, with its contact, transport and
-- expiry, and nothing if that one has run out, or had lifetime 0, or if there is none; no request
-- of another user and no look-up has a say in it.
pub get-serve_all :
    (now : ℕ) (v : Text) (requests : List Request)
    → NotAfter now requests
    → (get now v (serve_all requests new_registrar)).1 ≡ live now (last_word v requests none)
get-serve_all now v requests h =
    get-live now v (serve_all requests new_registrar)
    ∙ serve_all-last_word now v requests new_registrar h
    ∙ (unfold new_registrar find in refl)
