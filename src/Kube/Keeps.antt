-- ===== src/Kube/Keeps.antt =====
-- Invariants of the log, with one rule for each way to build an action.
use hydra_operator.Base.{
  Option, none, some, String, Bool, true, false, List, ◌∷◌, Result, ok, err, if◌then◌else◌,
}
use hydra_operator.Kube.Calls.{Call, get_call, create_call, update_call, delete_call}
use hydra_operator.Kube.Env.{
  Session, Action, pure, ◌>>=◌, or_return, unless, perform, Client, get, create, update, delete,
}

-- `m` keeps `P`, whatever answers its calls.
pub record Keeps {W A : Type 0} (P : List Call → Type 0) (m : Action W A) : Type 0 where
  pub holds_after : (s : Session W) → P s.log → P (m s).1.log

-- A log that satisfies `P` may go on with the call `c`.
pub record Allows (P : List Call → Type 0) (c : Call) : Type 0 where
  pub extend : (l : List Call) → P l → P (c ∷ l)

module _ {W A : Type 0} {P : List Call → Type 0} where
  pub Keeps-pure : (result : A) → Keeps {W = W} P (pure result)
  unfolding pure
  Keeps-pure result = record { holds_after = λ s so_far. so_far }

  pub Keeps-if :
      (test : Bool) (this other : Action W A)
      → Keeps P this
      → Keeps P other
      → Keeps P (if test then this else other)
  Keeps-if true this other keep_this keep_other = keep_this
  Keeps-if false this other keep_this keep_other = keep_other

  pub Keeps-unless :
      {E : Type 0} (o : Option E) (f : E → Action W A) (m : Action W A)
      → ((e : E) → Keeps P (f e))
      → Keeps P m
      → Keeps P (unless o f m)
  unfolding unless
  Keeps-unless none f m kf km = km
  Keeps-unless (some e) f m kf km = kf e

  pub Keeps-perform : (c : Call) (op : W → A × W) → Allows P c → Keeps P (perform c op)
  unfolding perform
  Keeps-perform c op allowed = record { holds_after = λ s h. allowed.extend s.log h }

module _ {W A B : Type 0} {P : List Call → Type 0} where
  pub Keeps-bind :
      (first : Action W A) (next : A → Action W B)
      → Keeps P first
      → ((a : A) → Keeps P (next a))
      → Keeps P (first >>= next)
  unfolding ◌>>=◌
  Keeps-bind first next keep keep_next = record {
    holds_after =
        λ s so_far. (keep_next (first s).0).holds_after (first s).1 (keep.holds_after s so_far);
  }

  Keeps-answer :
      {E : Type 0} (r : Result E A) (f : E → Action W B) (k : A → Action W B)
      → ((e : E) → Keeps P (f e))
      → ((a : A) → Keeps P (k a))
      → (s : Session W) → P s.log
      → P (elim r as (λ _. B × Session W) [ ok a ↦ k a s | err e ↦ f e s ]).1.log
  Keeps-answer (ok a) f k kf kk s h = (kk a).holds_after s h
  Keeps-answer (err e) f k kf kk s h = (kf e).holds_after s h

  pub Keeps-or_return :
      {E : Type 0} (m : Action W (Result E A)) (f : E → Action W B) (k : A → Action W B)
      → Keeps P m
      → ((e : E) → Keeps P (f e))
      → ((a : A) → Keeps P (k a))
      → Keeps P (or_return m f k)
  unfolding or_return
  Keeps-or_return m f k km kf kk = record {
    holds_after = λ s h. Keeps-answer (m s).0 f k kf kk (m s).1 (km.holds_after s h);
  }

module _ {W T : Type 0} {P : List Call → Type 0} (c : Client W T) (ns : String) where
  pub Keeps-get : (name : String) → Allows P (get_call c.kind ns name) → Keeps P (get c ns name)
  unfolding get
  Keeps-get name = Keeps-perform _ _

  pub Keeps-create : (t : T) → Allows P (create_call ns (c.wrap t)) → Keeps P (create c ns t)
  unfolding create
  Keeps-create t = Keeps-perform _ _

  pub Keeps-update : (t : T) → Allows P (update_call ns (c.wrap t)) → Keeps P (update c ns t)
  unfolding update
  Keeps-update t = Keeps-perform _ _

  pub Keeps-delete :
      (name : String) → Allows P (delete_call c.kind ns name) → Keeps P (delete c ns name)
  unfolding delete
  Keeps-delete name = Keeps-perform _ _

pub ruleset keeps_rules = (
  Keeps-pure, Keeps-if, Keeps-perform, Keeps-bind, Keeps-or_return, Keeps-get, Keeps-create,
  Keeps-update, Keeps-delete,
)
