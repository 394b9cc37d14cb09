-- ===== src/Kube/Costs.antt =====
-- Bounds on the number of calls that an action makes, with one rule for each way to build an action.
use hydra_operator.Base.{
  ℕ, suc, ◌+◌, ◌≤◌, Option, none, some, Bool, true, false, String, Result, ok, err, arith, length,
  if◌then◌else◌,
}
use hydra_operator.Kube.Calls.{Call}
use hydra_operator.Kube.Env.{
  Session, Action, pure, ◌>>=◌, or_return, unless, perform, Client, get, create, update, delete,
}

-- `m` makes at most `n` calls, whatever answers them.
pub record Costs {W A : Type 0} (n : ℕ) (m : Action W A) : Type 0 where
  pub bounds : (s : Session W) → length (m s).1.log ≤ n + length s.log

module _ {W A : Type 0} where
  pub Costs-pure : (n : ℕ) (result : A) → Costs {W = W} n (pure result)
  unfolding pure
  Costs-pure n result = record { bounds = λ s. omega arith }

  pub Costs-if :
      {n : ℕ} (test : Bool) (this other : Action W A)
      → Costs n this
      → Costs n other
      → Costs n (if test then this else other)
  Costs-if true this other few_this few_other = few_this
  Costs-if false this other few_this few_other = few_other

  pub Costs-unless :
      {n : ℕ} {E : Type 0} (o : Option E) (f : E → Action W A) (m : Action W A)
      → ((e : E) → Costs n (f e))
      → Costs n m
      → Costs n (unless o f m)
  unfolding unless
  Costs-unless none f m few_f few_m = few_m
  Costs-unless (some e) f m few_f few_m = few_f e

  pub Costs-perform : (n : ℕ) (c : Call) (op : W → A × W) → Costs (suc n) (perform c op)
  unfolding perform
  Costs-perform n c op = record { bounds = λ s. omega arith }

  pub Costs-le : {m n : ℕ} (action : Action W A) → m ≤ n → Costs m action → Costs n action
  Costs-le action h few = record { bounds = λ s. omega (arith, few.bounds s) }

module _ {W A B : Type 0} where
  -- The budget of a sequence is split at `a`.
  pub Costs-bind :
      {n : ℕ} (a b : ℕ) (first : Action W A) (next : A → Action W B)
      → a + b ≤ n
      → Costs a first
      → ((x : A) → Costs b (next x))
      → Costs n (first >>= next)
  unfolding ◌>>=◌
  Costs-bind a b first next within few few_next = record {
    bounds = λ s. omega (arith, few.bounds s, (few_next (first s).0).bounds (first s).1);
  }

  -- The rest of the budget may depend on what is known of the first result.
  pub Costs-bind_known :
      {n : ℕ} (a b : ℕ) (Known : A → Type 0) (first : Action W A) (next : A → Action W B)
      → a + b ≤ n
      → Costs a first
      → ((s : Session W) → Known (first s).0)
      → ((x : A) → Known x → Costs b (next x))
      → Costs n (first >>= next)
  unfolding ◌>>=◌
  Costs-bind_known a b Known first next within few known few_next = record {
    bounds = λ s. omega (arith, few.bounds s, (few_next (first s).0 (known s)).bounds (first s).1);
  }

  Costs-answer :
      {n : ℕ} {E : Type 0} (r : Result E A) (f : E → Action W B) (k : A → Action W B)
      → ((e : E) → Costs n (f e))
      → ((x : A) → Costs n (k x))
      → (s : Session W)
      → length (elim r as (λ _. B × Session W) [ ok x ↦ k x s | err e ↦ f e s ]).1.log
        ≤ n + length s.log
  Costs-answer (ok x) f k few_f few_k s = (few_k x).bounds s
  Costs-answer (err e) f k few_f few_k s = (few_f e).bounds s

  pub Costs-or_return :
      {n : ℕ} {E : Type 0} (a b : ℕ) (first : Action W (Result E A)) (f : E → Action W B)
      (k : A → Action W B)
      → a + b ≤ n
      → Costs a first
      → ((e : E) → Costs b (f e))
      → ((x : A) → Costs b (k x))
      → Costs n (or_return first f k)
  unfolding or_return
  Costs-or_return a b first f k within few few_f few_k = record {
    bounds = λ s. omega (arith, few.bounds s, Costs-answer (first s).0 f k few_f few_k (first s).1);
  }

  -- A pure step first costs nothing.
  pub Costs-return :
      {n : ℕ} {E : Type 0} (r : Result E A) (f : E → Action W B) (k : A → Action W B)
      → ((e : E) → Costs n (f e))
      → ((x : A) → Costs n (k x))
      → Costs n (or_return (pure r) f k)
  unfolding or_return pure
  Costs-return r f k few_f few_k = record { bounds = Costs-answer r f k few_f few_k }

  -- One call first, with an answer that may be an error.
  pub Costs-call :
      {n : ℕ} {E : Type 0} (first : Action W (Result E A)) (f : E → Action W B) (k : A → Action W B)
      → Costs 1 first
      → ((e : E) → Costs n (f e))
      → ((x : A) → Costs n (k x))
      → Costs (suc n) (or_return first f k)
  Costs-call {n} first f k few = Costs-or_return 1 n first f k (omega arith) few

  pub Costs-then :
      {n : ℕ} (first : Action W A) (next : A → Action W B)
      → Costs 1 first
      → ((x : A) → Costs n (next x))
      → Costs (suc n) (first >>= next)
  Costs-then {n} first next few = Costs-bind 1 n first next (omega arith) few

module _ {W T : Type 0} (n : ℕ) (c : Client W T) (ns : String) where
  pub Costs-get : (name : String) → Costs (suc n) (get c ns name)
  unfolding get
  Costs-get name = Costs-perform n _ _

  pub Costs-create : (t : T) → Costs (suc n) (create c ns t)
  unfolding create
  Costs-create t = Costs-perform n _ _

  pub Costs-update : (t : T) → Costs (suc n) (update c ns t)
  unfolding update
  Costs-update t = Costs-perform n _ _

  pub Costs-delete : (name : String) → Costs (suc n) (delete c ns name)
  unfolding delete
  Costs-delete name = Costs-perform n _ _

pub ruleset cost_rules = (
  Costs-pure, Costs-if, Costs-unless, Costs-perform, Costs-return, Costs-call, Costs-then,
  Costs-get, Costs-create, Costs-update, Costs-delete,
)
