-- ===== src/Kube/Leaves.antt =====
-- Actions that leave a part of the world as it is, with one rule for each way to build an action.
use hydra_operator.Base.{
  String, Bool, true, false, ◌≡◌, refl, ◌∙◌, Option, none, some, Result, ok, err, if◌then◌else◌,
}
use hydra_operator.Kube.Calls.{Call}
use hydra_operator.Kube.Env.{
  Resource, Session, Action, pure, ◌>>=◌, or_return, unless, perform, Client, get, create, update,
  delete,
}

-- A call of the world that does not change what `part` reads of it.
abbrev pub Still : {W V A : Type 0} → (W → V) → (W → A × W) → Type 0
Still {W} part op = (w : W) → part (op w).1 ≡ part w

-- The same of all calls of one client.
pub record StillResource {W V T : Type 0} (part : W → V) (r : Resource W T) : Type 0 where
  pub still_get : (ns name : String) → Still part (r.get ns name)
  pub still_create : (ns : String) (t : T) → Still part (r.create ns t)
  pub still_update : (ns : String) (t : T) → Still part (r.update ns t)
  pub still_delete : (ns name : String) → Still part (r.delete ns name)

-- The same of the calls for the objects that are `free`, and of all that only read.
pub record StillOn {W V T : Type 0} (part : W → V) (free : String → String → Type 0)
    (name_of : T → String) (r : Resource W T) : Type 0 where
  pub on_get : (ns name : String) → Still part (r.get ns name)
  pub on_create : (ns : String) (t : T) → free ns (name_of t) → Still part (r.create ns t)
  pub on_update : (ns : String) (t : T) → free ns (name_of t) → Still part (r.update ns t)
  pub on_delete : (ns name : String) → free ns name → Still part (r.delete ns name)

pub StillOn-all :
    {W V T : Type 0} {part : W → V} {free : String → String → Type 0} {name_of : T → String}
    (r : Resource W T)
    → StillResource part r
    → StillOn part free name_of r
StillOn-all r still = record {
  on_get = still.still_get;
  on_create = λ ns t is_free. still.still_create ns t;
  on_update = λ ns t is_free. still.still_update ns t;
  on_delete = λ ns name is_free. still.still_delete ns name;
}

pub record Leaves {W V A : Type 0} (part : W → V) (m : Action W A) : Type 0 where
  pub same : (s : Session W) → part (m s).1.world ≡ part s.world

module _ {W V A : Type 0} {part : W → V} where
  pub Leaves-pure : (result : A) → Leaves part (pure result)
  unfolding pure
  Leaves-pure result = record { same = λ s. refl }

  pub Leaves-if :
      (test : Bool) (this other : Action W A)
      → Leaves part this
      → Leaves part other
      → Leaves part (if test then this else other)
  Leaves-if true this other one two = one
  Leaves-if false this other one two = two

  pub Leaves-unless :
      {E : Type 0} (o : Option E) (f : E → Action W A) (m : Action W A)
      → ((e : E) → Leaves part (f e))
      → Leaves part m
      → Leaves part (unless o f m)
  unfolding unless
  Leaves-unless none f m one two = two
  Leaves-unless (some e) f m one two = one e

  pub Leaves-perform : (c : Call) (op : W → A × W) → Still part op → Leaves part (perform c op)
  unfolding perform
  Leaves-perform c op still = record { same = λ s. still s.world }

-- What comes after an action leaves the part as that action made it.
pub Leaves-after :
    {W V A B : Type 0} {part : W → V} (first : Action W A) (next : A → Action W B) (s : Session W)
    → ((a : A) → Leaves part (next a))
    → part ((first >>= next) s).1.world ≡ part (first s).1.world
unfolding ◌>>=◌
Leaves-after first next s leaves = (leaves (first s).0).same (first s).1

-- What follows an action that is known to succeed.
pub or_return_known :
    {W A B E : Type 0} (first : Action W (Result E A)) (f : E → Action W B) (k : A → Action W B)
    (s : Session W) (a : A)
    → (first s).0 ≡ ok a
    → or_return first f k s ≡ k a (first s).1
unfolding or_return
or_return_known first f k s a done = rw (done, or_return) refl

module _ {W V A B : Type 0} {part : W → V} where
  pub Leaves-bind :
      (first : Action W A) (next : A → Action W B)
      → Leaves part first
      → ((a : A) → Leaves part (next a))
      → Leaves part (first >>= next)
  unfolding ◌>>=◌
  Leaves-bind first next one two = record {
    same = λ s. (two (first s).0).same (first s).1 ∙ one.same s;
  }

  Leaves-answer :
      {E : Type 0} (r : Result E A) (f : E → Action W B) (k : A → Action W B)
      → ((e : E) → Leaves part (f e))
      → ((a : A) → Leaves part (k a))
      → (s : Session W)
      → part (elim r as (λ _. B × Session W) [ ok a ↦ k a s | err e ↦ f e s ]).1.world
        ≡ part s.world
  Leaves-answer (ok a) f k one two s = (two a).same s
  Leaves-answer (err e) f k one two s = (one e).same s

  pub Leaves-or_return :
      {E : Type 0} (first : Action W (Result E A)) (f : E → Action W B) (k : A → Action W B)
      → Leaves part first
      → ((e : E) → Leaves part (f e))
      → ((a : A) → Leaves part (k a))
      → Leaves part (or_return first f k)
  unfolding or_return
  Leaves-or_return first f k now one two = record {
    same = λ s. Leaves-answer (first s).0 f k one two (first s).1 ∙ now.same s;
  }

  -- Where the first action is known to succeed, it may change the part.
  pub Leaves-or_return_known :
      {E : Type 0} (first : Action W (Result E A)) (f : E → Action W B) (k : A → Action W B)
      (s : Session W) (a : A)
      → (first s).0 ≡ ok a
      → Leaves part (k a)
      → part (or_return first f k s).1.world ≡ part (first s).1.world
  Leaves-or_return_known first f k s a done leaves =
      rw (or_return_known first f k s a done) (leaves.same (first s).1)

module _ {W V T : Type 0} {part : W → V} (c : Client W T) (ns : String) where
  pub Leaves-get : (name : String) → Still part (c.store.get ns name) → Leaves part (get c ns name)
  unfolding get
  Leaves-get name = Leaves-perform _ _

  pub Leaves-create : (t : T) → Still part (c.store.create ns t) → Leaves part (create c ns t)
  unfolding create
  Leaves-create t = Leaves-perform _ _

  pub Leaves-update : (t : T) → Still part (c.store.update ns t) → Leaves part (update c ns t)
  unfolding update
  Leaves-update t = Leaves-perform _ _

  pub Leaves-delete :
      (name : String) → Still part (c.store.delete ns name) → Leaves part (delete c ns name)
  unfolding delete
  Leaves-delete name = Leaves-perform _ _

module _ {W V T : Type 0} {part : W → V} (r : Resource W T) (still : StillResource part r)
    (ns : String) where
  pub get-Still : (name : String) → Still part (r.get ns name)
  get-Still = still.still_get ns

  pub create-Still : (t : T) → Still part (r.create ns t)
  create-Still = still.still_create ns

  pub update-Still : (t : T) → Still part (r.update ns t)
  update-Still = still.still_update ns

  pub delete-Still : (name : String) → Still part (r.delete ns name)
  delete-Still = still.still_delete ns

pub ruleset leave_rules = (
  Leaves-pure, Leaves-if, Leaves-unless, Leaves-perform, Leaves-bind, Leaves-or_return, Leaves-get,
  Leaves-create, Leaves-update, Leaves-delete, get-Still, create-Still, update-Still, delete-Still,
)
