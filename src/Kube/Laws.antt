-- ===== src/Kube/Laws.antt =====
-- What the API documents of the objects under one client: a call that succeeds has read or left the
-- object that it names, and "not found" means that there is none. Nothing is said of a call that
-- fails otherwise, nor of what others do between two calls.
use hydra_operator.Base.{String, true, ◌≡◌, ◌⊎◌, Option, none, some, ok, err}
use hydra_operator.Kube.Calls.{ApiError}
use hydra_operator.Kube.Env.{Resource}

-- `view` is what the server keeps of an object as it was sent (it may fill in the rest), and `seen`
-- the view of the object under a namespace and a name, if there is one.
pub record Obeys {W T V : Type 0} (r : Resource W T) (seen : String → String → W → Option V)
    (name_of : T → String) (view : T → V) : Type 0 where
  pub get_ok :
      (ns name : String) (w : W) (t : T)
      → (r.get ns name w).0 ≡ ok t
      → seen ns name (r.get ns name w).1 ≡ some (view t)
  pub get_absent :
      (ns name : String) (w : W) (e : ApiError)
      → (r.get ns name w).0 ≡ err e
      → e.not_found ≡ true
      → seen ns name (r.get ns name w).1 ≡ none
  pub create_ok :
      (ns : String) (t u : T) (w : W)
      → (r.create ns t w).0 ≡ ok u
      → seen ns (name_of t) (r.create ns t w).1 ≡ some (view t)
  pub update_ok :
      (ns : String) (t u : T) (w : W)
      → (r.update ns t w).0 ≡ ok u
      → seen ns (name_of t) (r.update ns t w).1 ≡ some (view t)
  pub delete_ok :
      (ns name : String) (w : W)
      → (r.delete ns name w).0 ≡ ok tt
      → seen ns name (r.delete ns name w).1 ≡ none
  pub delete_absent :
      (ns name : String) (w : W) (e : ApiError)
      → (r.delete ns name w).0 ≡ err e
      → e.not_found ≡ true
      → seen ns name (r.delete ns name w).1 ≡ none

-- What an API server that can be reached does for a client that may do everything, while nobody else
-- writes: it says of an object what it is or that there is none, creates what it has just said not to
-- be there, replaces what it has just given under the version that it gave, and deletes.
pub record Answers {W T : Type 0} (r : Resource W T) (name_of version_of : T → String)
    : Type 0 where
  pub get_answers :
      (ns name : String) (w : W)
      → ((t : T) × ((r.get ns name w).0 ≡ ok t))
        ⊎ ((e : ApiError) × ((r.get ns name w).0 ≡ err e) × (e.not_found ≡ true))
  pub create_answers :
      (ns : String) (t : T) (w : W) (e : ApiError)
      → (r.get ns (name_of t) w).0 ≡ err e
      → e.not_found ≡ true
      → (u : T) × ((r.create ns t (r.get ns (name_of t) w).1).0 ≡ ok u)
  pub update_answers :
      (ns : String) (t existing : T) (w : W)
      → (r.get ns (name_of t) w).0 ≡ ok existing
      → version_of t ≡ version_of existing
      → (u : T) × ((r.update ns t (r.get ns (name_of t) w).1).0 ≡ ok u)
  pub delete_answers :
      (ns name : String) (w : W)
      → ((r.delete ns name w).0 ≡ ok tt)
        ⊎ ((e : ApiError) × ((r.delete ns name w).0 ≡ err e) × (e.not_found ≡ true))
