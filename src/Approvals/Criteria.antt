-- ===== src/Approvals/Criteria.antt =====
-- frontend/src/pages/manager/ApproveTransaction/ApproveTransaction.jsx: what the criteria and the orders of
-- the list mean.
use hybrid_quantum_cryptogra.Prelude.{
  ℕ, ◌≡◌, ◌≤◌, ◌<◌, ◌⊎◌, ◌↔◌, inl, inr, refl, ap, Bool, true, false, ◌&&◌, ◌||◌, Option, none, some,
  List, [], ◌∷◌, All, arith, Option-cases, &&_split,
}
use hybrid_quantum_cryptogra.Js.{Text, lit, text_eq, text_eq_iff, to_lower_case, is_empty, contains}
use hybrid_quantum_cryptogra.Sorting.{Ordered, All-map}
use hybrid_quantum_cryptogra.Approvals.Transactions.{Transaction, Risk}
use hybrid_quantum_cryptogra.Approvals.Filters.{
  AmountRange, all, low, medium, high, very_high, SortBy, date_asc, date_desc, amount_asc,
  amount_desc, risk_desc, unsorted, Filters, level_is, in_range, is_hit, mentions, score_of,
  in_order,
}

-- Whether a transaction meets a criterion, which may be off, and whether it meets all of them.
abbrev pub risk_met : Filters → Transaction → Bool
risk_met filters tx = text_eq filters.risk_level (lit "all") || level_is filters.risk_level tx

abbrev pub amount_met : Filters → Transaction → Bool
amount_met filters tx = in_range filters.amount_range tx.amount

abbrev pub search_met : Filters → Transaction → Bool
search_met filters tx =
    is_empty filters.search_query || is_hit (to_lower_case filters.search_query) tx

abbrev pub meets : Filters → Transaction → Bool
meets filters tx = (risk_met filters tx && amount_met filters tx) && search_met filters tx

-- The risk score, zero where there is none.
abbrev number : Option ℕ → ℕ
number none = 0
number (some n) = n

abbrev pub score : Option Risk → ℕ
score none = 0
score (some risk) = number risk.score

-- Which transaction may stand before which.
abbrev pub Precedes : SortBy → Transaction → Transaction → Type 0
Precedes date_asc a b = a.created_at ≤ b.created_at
Precedes date_desc a b = b.created_at ≤ a.created_at
Precedes amount_asc a b = a.amount ≤ b.amount
Precedes amount_desc a b = b.amount ≤ a.amount
Precedes risk_desc a b = score b.risk ≤ score a.risk
Precedes unsorted a b = Unit

-- Each item may stand before all that follow.
abbrev pub Sorted : {A : Type 0} → (A → A → Type 0) → List A → Type 0
Sorted R [] = Unit
Sorted R (x ∷ xs) = All (R x) xs × Sorted R xs

score_of-score : (tx : Transaction) → score_of tx ≡ score tx.risk
unfolding score_of
score_of-score tx = elim (Option-cases tx.risk) [
  | inl missing ↦ rw (missing, score_of) refl
  | inr (risk, e) ↦ elim (Option-cases risk.score) [
    | inl unscored ↦ rw (e, unscored, score_of) refl
    | inr (n, scored) ↦ rw (e, scored, score_of) refl
  ]
]

in_order-Precedes : (by : SortBy) (a b : Transaction) → in_order by a b ≡ true → Precedes by a b
unfolding in_order
in_order-Precedes date_asc a b h = ground arith
in_order-Precedes date_desc a b h = ground arith
in_order-Precedes amount_asc a b h = ground arith
in_order-Precedes amount_desc a b h = ground arith
in_order-Precedes risk_desc a b h = ground (arith, score_of-score a, score_of-score b)
in_order-Precedes unsorted a b h = tt

pub Ordered-Sorted :
    (by : SortBy) (xs : List Transaction) → Ordered (in_order by) xs → Sorted (Precedes by) xs
Ordered-Sorted by [] h = tt
Ordered-Sorted by (x ∷ xs) (h, hs) =
    (All-map (λ y. in_order-Precedes by x y) xs h, Ordered-Sorted by xs hs)

false-ne-true : false ≡ true → ⊥
false-ne-true e = cc

-- The criteria.
abbrev pub HasLevel : Text → Option Risk → Type 0
HasLevel level none = ⊥
HasLevel level (some risk) = risk.level ≡ some level

abbrev pub IsInRange : AmountRange → ℕ → Type 0
IsInRange all amount = Unit
IsInRange low amount = amount < 10000
IsInRange medium amount = (10000 ≤ amount) × (amount < 100000)
IsInRange high amount = (100000 ≤ amount) × (amount < 1000000)
IsInRange very_high amount = 1000000 ≤ amount

abbrev pub Mentions : Text → Option Text → Type 0
Mentions query none = ⊥
Mentions query (some field) = contains (to_lower_case query) (to_lower_case field) ≡ true

abbrev pub IsMentioned : Text → Transaction → Type 0
IsMentioned query tx =
    ((Mentions query tx.id ⊎ Mentions query tx.from_account) ⊎ Mentions query tx.to_account)
    ⊎ Mentions query tx.purpose

pub record Meets (filters : Filters) (tx : Transaction) : Type 0 where
  pub risk : (filters.risk_level ≡ lit "all") ⊎ HasLevel filters.risk_level tx.risk
  pub amount : IsInRange filters.amount_range tx.amount
  pub search : (filters.search_query ≡ []) ⊎ IsMentioned filters.search_query tx

in_range-IsInRange :
    (range : AmountRange) (amount : ℕ) → (in_range range amount ≡ true) ↔ IsInRange range amount
unfolding in_range
in_range-IsInRange all amount = (λ e. tt, λ e. ground arith)
in_range-IsInRange low amount = ground arith
in_range-IsInRange medium amount = ground arith
in_range-IsInRange high amount = ground arith
in_range-IsInRange very_high amount = ground arith

or_iff : {P Q : Type 0} (a b : Bool) → (a ≡ true) ↔ P → (b ≡ true) ↔ Q → ((a || b) ≡ true) ↔ (P ⊎ Q)
or_iff true b p q = (λ e. inl (p.0 refl), λ h. refl)
or_iff false b p q =
    (λ e. inr (q.0 e), λ h. elim h [ inl x ↦ absurd (false-ne-true (p.1 x)) | inr y ↦ q.1 y ])

some-injective : {s t : Text} → some s ≡ some t → s ≡ t
some-injective e = cc

level_is_iff :
    (level : Text) (tx : Transaction) → (level_is level tx ≡ true) ↔ HasLevel level tx.risk
unfolding level_is
level_is_iff level tx = elim (Option-cases tx.risk) [
  | inl missing ↦ rw (missing, level_is) (λ e. false-ne-true e, λ h. absurd h)
  | inr (risk, e) ↦ elim (Option-cases risk.level) [
    | inl unnamed ↦ rw (e, unnamed, level_is) (λ h. absurd (false-ne-true h), λ h. cc)
    | inr (name, named) ↦
        rw (e, named, level_is)
          (
            λ h. ap some ((text_eq_iff name level).0 h),
            λ h. (text_eq_iff name level).1 (some-injective h),
          )
  ]
]

mentions_iff :
    (query : Text) (field : Option Text)
    → (mentions (to_lower_case query) field ≡ true) ↔ Mentions query field
unfolding mentions
mentions_iff query none = (λ e. false-ne-true e, λ h. absurd h)
mentions_iff query (some field) = (λ e. e, λ h. h)

is_hit_iff :
    (query : Text) (tx : Transaction)
    → (is_hit (to_lower_case query) tx ≡ true) ↔ (IsMentioned query tx)
unfolding is_hit
is_hit_iff query tx =
    or_iff _ _
      (or_iff _ _ (or_iff _ _ (mentions_iff query tx.id) (mentions_iff query tx.from_account))
        (mentions_iff query tx.to_account))
      (mentions_iff query tx.purpose)

is_empty_iff : (s : Text) → (is_empty s ≡ true) ↔ (s ≡ [])
unfolding is_empty
is_empty_iff [] = (λ e. refl, λ e. refl)
is_empty_iff (c ∷ s) = (λ e. absurd (false-ne-true e), λ e. cc)

risk_met_iff :
    (filters : Filters) (tx : Transaction)
    → (risk_met filters tx ≡ true)
      ↔ ((filters.risk_level ≡ lit "all") ⊎ HasLevel filters.risk_level tx.risk)
risk_met_iff filters tx =
    or_iff _ _ (text_eq_iff filters.risk_level (lit "all")) (level_is_iff filters.risk_level tx)

search_met_iff :
    (filters : Filters) (tx : Transaction)
    → (search_met filters tx ≡ true)
      ↔ ((filters.search_query ≡ []) ⊎ IsMentioned filters.search_query tx)
search_met_iff filters tx =
    or_iff _ _ (is_empty_iff filters.search_query) (is_hit_iff filters.search_query tx)

pub meets_iff :
    (filters : Filters) (tx : Transaction) → (meets filters tx ≡ true) ↔ Meets filters tx
meets_iff filters tx = (
  λ e.
      let (both, found) = &&_split (risk_met filters tx && amount_met filters tx) _ e in
      let (level, ranged) = &&_split (risk_met filters tx) _ both in
      record {
        risk = (risk_met_iff filters tx).0 level;
        amount = (in_range-IsInRange filters.amount_range tx.amount).0 ranged;
        search = (search_met_iff filters tx).0 found;
      },
  λ m.
      rw
        (
          (risk_met_iff filters tx).1 m.risk,
          (in_range-IsInRange filters.amount_range tx.amount).1 m.amount,
          (search_met_iff filters tx).1 m.search,
        )
        refl,
)
