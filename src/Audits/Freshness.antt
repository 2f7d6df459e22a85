-- ===== src/Audits/Freshness.antt =====
-- frontend/src/pages/auditorClerk/AuditTransactions/AuditTransactions.jsx: which request the shown list
-- answers.
use mathlib.Core.Option
use hybrid_quantum_cryptogra.Prelude.{
  ◌≡◌, ◌⊎◌, inl, inr, refl, ap, sym, subst, ◌∙◌, true, ◌&&◌, Option, none, some, List, [], ◌∷◌,
  ◌++◌, All, append_assoc, Bool-cases,
}
use hybrid_quantum_cryptogra.Js.{Text, ℤ, pos}
use hybrid_quantum_cryptogra.Answers.{Answer, answered, failed}
use hybrid_quantum_cryptogra.Answers.Waiting.{World, sends, shows, Reach, Reach_kept}
use hybrid_quantum_cryptogra.Audits.{
  same_page, Filters, Params, Request, listing, statistics, details, Pagination, Page, query_of,
  same_filters, rerender, load_transactions, transactions_loaded, statistics_loaded,
  handle_view_details, details_loaded, handle_input, handle_apply_filters, handle_clear_filters,
  go_back, go_on, close_details,
}
use hybrid_quantum_cryptogra.Audits.Steps.{
  Desk, IsOther, initial_world, Event, enters, applies, clears, goes_back, goes_on, views, closes,
  lists, counts, tells,
}
use hybrid_quantum_cryptogra.Audits.Latest.{
  latest, params_same, latest-other, latest-listing, latest_waits,
}

some-injective : {a b : Params} → some a ≡ some b → a ≡ b
some-injective e = cc

module _ {T D S : Type 0} where
  -- The page shows the transactions and the page numbers of an answer, if it has some.
  abbrev pub Shows : Answer (Option (List T) × Option Pagination) → Page T D S → Type 0
  Shows (answered (found, pages)) p =
      (p.transactions ≡ Option.get_or found []) × (p.pagination ≡ pages)
  Shows (failed message) p = Unit

  module _ (server : Params → Answer (Option (List T) × Option Pagination)) where
    -- A request for what the page is to show is the latest that waits, or none waits and the page shows
    -- the answer to it.
    abbrev pub IsCurrent : Page T D S → List Request → Type 0
    IsCurrent p waiting =
        (latest waiting ≡ some (query_of p))
        ⊎ ((latest waiting ≡ none) × Shows (server (query_of p)) p)

    shown_again :
        (reply : Answer (Option (List T) × Option Pagination)) (p q : Page T D S)
        → q.transactions ≡ p.transactions
        → q.pagination ≡ p.pagination
        → Shows reply p
        → Shows reply q
    shown_again (answered (found, pages)) p q rows numbers (e, k) = (rows ∙ e, numbers ∙ k)
    shown_again (failed message) p q rows numbers h = h

    -- The same list and the same query.
    same_IsCurrent :
        (p q : Page T D S) (before after : List Request)
        → latest after ≡ latest before
        → query_of q ≡ query_of p
        → q.transactions ≡ p.transactions
        → q.pagination ≡ p.pagination
        → IsCurrent p before
        → IsCurrent q after
    same_IsCurrent p q before after waits same rows numbers (inl e) =
        inl (waits ∙ e ∙ ap (λ r. some r) (sym same))
    same_IsCurrent p q before after waits same rows numbers (inr (gone, shown)) = inr (
      waits ∙ gone,
      shown_again _ p q rows numbers (subst (λ r. Shows (server r) p) (sym same) shown),
    )

    rerender-IsCurrent :
        (filters : Filters) (page : ℤ) (p : Page T D S) (waiting : List Request)
        → IsCurrent p waiting
        → IsCurrent (rerender filters page p).0 ((rerender filters page p).1 ++ waiting)
    unfolding rerender load_transactions latest
    rerender-IsCurrent filters page p waiting h =
        elim (Bool-cases (same_filters p.filters filters && same_page p.current_page page)) [
          | inl same ↦
              rw (same, rerender)
                (same_IsCurrent p _ waiting waiting refl
                  (sym (params_same p.filters filters p.current_page page same)) refl refl h)
          | inr other ↦ rw (other, rerender) (inl refl)
        ]

    handle_apply_filters-IsCurrent :
        (p : Page T D S) (waiting : List Request)
        → IsCurrent (handle_apply_filters p).0 ((handle_apply_filters p).1 ++ waiting)
    unfolding handle_apply_filters load_transactions latest
    handle_apply_filters-IsCurrent p waiting =
        let asked = record p { loading = true } in
        subst (λ (requests : List Request). IsCurrent (rerender p.filters (pos 1) asked).0 requests)
          (sym
            (append_assoc (rerender p.filters (pos 1) asked).1 (listing (query_of p) ∷ []) waiting))
          (rerender-IsCurrent p.filters (pos 1) asked (listing (query_of p) ∷ waiting) (inl refl))

    listed :
        (reply : Answer (Option (List T) × Option Pagination)) (p : Page T D S)
        → Shows reply (transactions_loaded reply p)
    unfolding transactions_loaded
    listed (answered (found, pages)) p = (refl, refl)
    listed (failed message) p = tt

    -- An answer leaves the filters and the page number.
    answer_query :
        (reply : Answer (Option (List T) × Option Pagination)) (p : Page T D S)
        → query_of (transactions_loaded reply p) ≡ query_of p
    unfolding transactions_loaded
    answer_query (answered (found, pages)) p = refl
    answer_query (failed message) p = refl

    lists_IsCurrent :
        (p : Page T D S) (params : Params) (before later : List Request)
        → All IsOther later
        → IsCurrent p (before ++ (listing params ∷ later))
        → IsCurrent (transactions_loaded (server params) p) (before ++ later)
    lists_IsCurrent p params before later fresh (inr (gone, shown)) =
        absurd (latest_waits before later params gone)
    lists_IsCurrent p params before later fresh (inl e) =
        elim (latest-listing before later params fresh e) [
          | inl (gone, asked) ↦ inr (
            gone,
            subst (λ q. Shows (server q) (transactions_loaded (server params) p))
                (some-injective (sym asked) ∙ sym (answer_query (server params) p))
                (listed (server params) p),
          )
          | inr waits ↦ inl (waits ∙ ap (λ q. some q) (sym (answer_query (server params) p)))
        ]

    counted_IsCurrent :
        (reply : Answer S) (p : Page T D S) (before later : List Request)
        → IsCurrent p (before ++ (statistics ∷ later))
        → IsCurrent (statistics_loaded reply p) (before ++ later)
    unfolding statistics_loaded
    counted_IsCurrent (answered found) p before later h =
        same_IsCurrent p _ (before ++ (statistics ∷ later)) (before ++ later)
          (sym (latest-other before later statistics tt)) refl refl refl h
    counted_IsCurrent (failed message) p before later h =
        same_IsCurrent p _ (before ++ (statistics ∷ later)) (before ++ later)
          (sym (latest-other before later statistics tt)) refl refl refl h

    told_IsCurrent :
        (id : Text) (reply : Answer D) (p : Page T D S) (before later : List Request)
        → IsCurrent p (before ++ (details id ∷ later))
        → IsCurrent (details_loaded reply p) (before ++ later)
    unfolding details_loaded
    told_IsCurrent id (answered found) p before later h =
        same_IsCurrent p _ (before ++ (details id ∷ later)) (before ++ later)
          (sym (latest-other before later (details id) tt)) refl refl refl h
    told_IsCurrent id (failed message) p before later h =
        same_IsCurrent p _ (before ++ (details id ∷ later)) (before ++ later)
          (sym (latest-other before later (details id) tt)) refl refl refl h

    Event-IsCurrent :
        {v w : Desk T D S}
        → Event server ⊥ v w
        → IsCurrent v.page v.waiting
        → IsCurrent w.page w.waiting
    unfolding sends shows handle_input handle_clear_filters go_back go_on handle_view_details
        close_details latest
    Event-IsCurrent {v} (enters field value) h = rerender-IsCurrent _ _ v.page v.waiting h
    Event-IsCurrent {v} (applies idle) h = handle_apply_filters-IsCurrent v.page v.waiting
    Event-IsCurrent {v} clears h = rerender-IsCurrent _ _ v.page v.waiting h
    Event-IsCurrent {v} (goes_back info e k l) h = rerender-IsCurrent _ _ v.page v.waiting h
    Event-IsCurrent {v} (goes_on info e k l) h = rerender-IsCurrent _ _ v.page v.waiting h
    Event-IsCurrent {v} (views id) h =
        same_IsCurrent v.page _ v.waiting (details id ∷ v.waiting) refl refl refl refl h
    Event-IsCurrent {v} closes h = same_IsCurrent v.page _ v.waiting v.waiting refl refl refl refl h
    Event-IsCurrent {v} (lists params before later e (inl fresh)) h =
        lists_IsCurrent v.page params before later fresh (subst (IsCurrent v.page) e h)
    Event-IsCurrent {v} (lists params before later e (inr overtakes)) h = absurd overtakes
    Event-IsCurrent {v} (counts reply before later e) h =
        counted_IsCurrent reply v.page before later (subst (IsCurrent v.page) e h)
    Event-IsCurrent {v} (tells id reply before later e) h =
        told_IsCurrent id reply v.page before later (subst (IsCurrent v.page) e h)

    -- Whatever is done on the page from its start: where the answers with lists come in in the order of their
    -- requests, the latest request that waits for a list asks for what the filters and the page number say,
    -- or none waits and the list and the page numbers are those of the server's answer for them, if it gives
    -- an answer. The server's answer depends on the request's parameters alone.
    pub Reach-IsCurrent :
        {w : Desk T D S} → Reach (Event server ⊥) initial_world w → IsCurrent w.page w.waiting
    unfolding initial_world load_transactions latest
    Reach-IsCurrent r =
        Reach_kept (Event server ⊥) (λ w. IsCurrent (World.page w) (World.waiting w))
          (λ u v. Event-IsCurrent) (inl refl) r
