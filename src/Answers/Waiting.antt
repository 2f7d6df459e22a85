-- ===== src/Answers/Waiting.antt =====
-- Pages whose requests wait for the server, which answers them in any order.
use hybrid_quantum_cryptogra.Prelude.{List, ◌++◌}

-- `sent` holds all requests, the latest first, and `waiting` those without an answer.
pub record World (P R : Type 0) : Type 0 where
  pub page : P
  pub waiting : List R
  pub sent : List R

module _ {P R : Type 0} where
  -- A handler that may send requests, and one that does not.
  unfoldable pub sends : P × List R → World P R → World P R
  sends (p, requests) w = record {
    page = p;
    waiting = requests ++ w.waiting;
    sent = requests ++ w.sent;
  }

  unfoldable pub shows : P → World P R → World P R
  shows p w = record w { page = p }

-- Any number of steps.
module _ {S : Type 0} (Event : S → S → Type 0) where
  pub data Reach (s : S) : S → Type 0 where
    here : Reach s s
    next : {t u : S} → Reach s t → Event t u → Reach s u

  -- What every step keeps holds wherever the steps lead.
  pub Reach_kept :
      (P : S → Type 0) {s t : S} → ((u v : S) → Event u v → P u → P v) → P s → Reach s t → P t
  Reach_kept P keep h here = h
  Reach_kept P keep h (next {t = u} {u = v} r e) = keep u v e (Reach_kept P keep h r)
