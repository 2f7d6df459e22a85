-- ===== src/Audits/Latest.antt =====
-- frontend/src/pages/auditorClerk/AuditTransactions/AuditTransactions.jsx: the parameters of requests, and
-- the latest request for the list.

use hybrid_quantum_cryptogra.Prelude.{
  ◌≡◌, ◌⊎◌, inl, inr, refl, ap, sym, true, ◌&&◌, Option, none, some, List, [], ◌∷◌, ◌++◌, All,
  arith,
}
use hybrid_quantum_cryptogra.Js.{text_eq_iff, ℤ, pos, negsuc}
use hybrid_quantum_cryptogra.Audits.{
  same_page, Filters, Params, Request, listing, statistics, details, params_of, same_filters,
}
use hybrid_quantum_cryptogra.Audits.Steps.{IsOther}

same_page-eq : (a b : ℤ) → same_page a b ≡ true → a ≡ b
unfolding same_page
same_page-eq (pos n) (pos m) h = ap (λ k. pos k) (ground arith)
same_page-eq (negsuc n) (negsuc m) h = ap (λ k. negsuc k) (ground arith)
same_page-eq (pos n) (negsuc m) h = cc
same_page-eq (negsuc n) (pos m) h = cc

-- The parameters depend on what the effect looks at.
pub params_same :
    (f g : Filters) (a b : ℤ)
    → (same_filters f g && same_page a b) ≡ true
    → params_of f a ≡ params_of g b
unfolding same_filters params_of
params_same f g a b h =
    let same : same_filters f g ≡ true = ground arith in
    rw
      (
        same_page-eq a b (ground arith),
        (text_eq_iff f.status g.status).0 (ground arith),
        (text_eq_iff f.date_from g.date_from).0 (ground arith),
        (text_eq_iff f.date_to g.date_to).0 (ground arith),
        (text_eq_iff f.amount_min g.amount_min).0 (ground arith),
        (text_eq_iff f.amount_max g.amount_max).0 (ground arith),
        (text_eq_iff f.search g.search).0 (ground arith),
      )
      refl

-- The parameters of the latest request for the list.
unfoldable pub latest : List Request → Option Params
latest [] = none
latest (listing params ∷ requests) = some params
latest (statistics ∷ requests) = latest requests
latest (details id ∷ requests) = latest requests

pub latest-later :
    (before later : List Request) → All IsOther later → latest (before ++ later) ≡ latest before
unfolding latest
latest-later [] [] h = refl
latest-later [] (listing params ∷ later) (h, hs) = absurd h
latest-later [] (statistics ∷ later) (h, hs) = latest-later [] later hs
latest-later [] (details id ∷ later) (h, hs) = latest-later [] later hs
latest-later (listing params ∷ before) later h = refl
latest-later (statistics ∷ before) later h = latest-later before later h
latest-later (details id ∷ before) later h = latest-later before later h

pub latest-other :
    (before later : List Request) (r : Request)
    → IsOther r
    → latest (before ++ (r ∷ later)) ≡ latest (before ++ later)
unfolding latest
latest-other [] later (listing params) h = absurd h
latest-other [] later statistics h = refl
latest-other [] later (details id) h = refl
latest-other (listing params ∷ before) later r h = refl
latest-other (statistics ∷ before) later r h = latest-other before later r h
latest-other (details id ∷ before) later r h = latest-other before later r h

-- A request that is not overtaken was the latest one, or a later one is still waiting.
pub latest-listing :
    (before later : List Request) (params : Params) {r : Option Params}
    → All IsOther later
    → latest (before ++ (listing params ∷ later)) ≡ r
    → ((latest (before ++ later) ≡ none) × (r ≡ some params)) ⊎ (latest (before ++ later) ≡ r)
unfolding latest
latest-listing [] later params h e = inl (latest-later [] later h, sym e)
latest-listing (listing q ∷ before) later params h e = inr e
latest-listing (statistics ∷ before) later params h e = latest-listing before later params h e
latest-listing (details id ∷ before) later params h e = latest-listing before later params h e

pub latest_waits :
    (before later : List Request) (params : Params)
    → latest (before ++ (listing params ∷ later)) ≡ none
    → ⊥
unfolding latest
latest_waits [] later params e = cc
latest_waits (listing q ∷ before) later params e = cc
latest_waits (statistics ∷ before) later params e = latest_waits before later params e
latest_waits (details id ∷ before) later params e = latest_waits before later params e
