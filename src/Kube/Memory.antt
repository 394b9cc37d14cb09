-- ===== src/Kube/Memory.antt =====
-- A cluster in memory, for runs of the program and for instances of its theorems. It answers as the
-- fake clientsets of the unit tests do: no call fails but for a missing or an existing object.
use mathlib.Core.Option
use hydra_operator.Base.{
  String, true, false, ◌&&◌, ◌≡◌, ◌≢◌, refl, Option, none, some, List, [], ◌∷◌, Result, ok, err,
  arith, ◌==◌, eq_iff, if◌then◌else◌, ◌⊎◌, inl, inr,
}
use hydra_operator.Kube.Calls.{ApiError}
use hydra_operator.Kube.Env.{Resource}
use hydra_operator.Kube.Leaves.{StillResource, StillOn}
use hydra_operator.Kube.Laws.{Obeys, Answers}

abbrev pub Table : Type 0 → Type 0
Table T = List (String × String × T)

other_key : (ns name m k : String) → (m ≢ ns) ⊎ (k ≢ name) → (m == ns && k == name) ≡ false
other_key ns name m k (inl other) = ground (arith, eq_iff m ns)
other_key ns name m k (inr other) = ground (arith, eq_iff k name)

module _ {T : Type 0} where
  abbrev pub find : String → String → Table T → Option T
  find ns name [] = none
  find ns name ((m, k, t) ∷ table) = if m == ns && k == name then some t else find ns name table

  abbrev pub put : String → String → T → Table T → Table T
  put ns name t [] = (ns, name, t) ∷ []
  put ns name t ((m, k, u) ∷ table) =
      if m == ns && k == name then (m, k, t) ∷ table else (m, k, u) ∷ put ns name t table

  abbrev pub remove : String → String → Table T → Table T
  remove ns name [] = []
  remove ns name ((m, k, u) ∷ table) =
      let rest = remove ns name table in if m == ns && k == name then rest else (m, k, u) ∷ rest

  pub find-put :
      (ns name : String) (t : T) (table : Table T) → find ns name (put ns name t table) ≡ some t
  find-put ns name t [] = ground (arith, eq_iff ns ns, eq_iff name name)
  find-put ns name t ((m, k, u) ∷ table) = ground (arith, find-put ns name t table)

  pub find-remove :
      (ns name : String) (table : Table T) → find ns name (remove ns name table) ≡ none
  find-remove ns name [] = refl
  find-remove ns name ((m, k, u) ∷ table) = ground (arith, find-remove ns name table)

  pub find-put_other :
      (ns name m k : String) (t : T) (table : Table T)
      → (m ≢ ns) ⊎ (k ≢ name)
      → find ns name (put m k t table) ≡ find ns name table
  find-put_other ns name m k t [] other = ground (arith, other_key ns name m k other)
  find-put_other ns name m k t ((o, l, u) ∷ table) other = ground (
    arith,
    eq_iff o m,
    eq_iff l k,
    other_key ns name m k other,
    find-put_other ns name m k t table other,
  )

  pub find-remove_other :
      (ns name m k : String) (table : Table T)
      → (m ≢ ns) ⊎ (k ≢ name)
      → find ns name (remove m k table) ≡ find ns name table
  find-remove_other ns name m k [] other = refl
  find-remove_other ns name m k ((o, l, u) ∷ table) other = ground (
    arith,
    eq_iff o m,
    eq_iff l k,
    other_key ns name m k other,
    find-remove_other ns name m k table other,
  )

abbrev pub absent_error : ApiError
absent_error = record { not_found = true; already_exists = false; message = "not found" }

abbrev pub exists_error : ApiError
exists_error = record { not_found = false; already_exists = true; message = "already exists" }

module _ {W T : Type 0} (read : W → Table T) (write : Table T → W → W) (name_of : T → String) where
  abbrev get_in : String → String → W → Option T → Result ApiError T × W
  get_in ns name w none = (err absent_error, w)
  get_in ns name w (some t) = (ok t, w)

  abbrev create_in : String → T → W → Option T → Result ApiError T × W
  create_in ns t w none = (ok t, write (put ns (name_of t) t (read w)) w)
  create_in ns t w (some _) = (err exists_error, w)

  abbrev update_in : String → T → W → Option T → Result ApiError T × W
  update_in ns t w none = (err absent_error, w)
  update_in ns t w (some _) = (ok t, write (put ns (name_of t) t (read w)) w)

  abbrev delete_in : String → String → W → Option T → Result ApiError (Unit {0}) × W
  delete_in ns name w none = (err absent_error, w)
  delete_in ns name w (some _) = (ok tt, write (remove ns name (read w)) w)

  abbrev pub table_resource : Resource W T
  table_resource = record {
    get = λ ns name w. get_in ns name w (find ns name (read w));
    create = λ ns t w. create_in ns t w (find ns (name_of t) (read w));
    update = λ ns t w. update_in ns t w (find ns (name_of t) (read w));
    delete = λ ns name w. delete_in ns name w (find ns name (read w));
  }

  module _ (read-write : (table : Table T) (w : W) → read (write table w) ≡ table) where
    read-put :
        (ns name : String) (t : T) (w : W)
        → find ns name (read (write (put ns name t (read w)) w)) ≡ some t
    read-put ns name t w = rw read-write (find-put ns name t (read w))

    read-remove :
        (ns name : String) (w : W) → find ns name (read (write (remove ns name (read w)) w)) ≡ none
    read-remove ns name w = rw read-write (find-remove ns name (read w))

    pub table-Obeys :
        {V : Type 0} (view : T → V)
        → Obeys table_resource (λ ns name w. Option.map view (find ns name (read w))) name_of view
    table-Obeys view = record {
      get_ok = λ ns name w t h. ground arith;
      get_absent = λ ns name w e h a. ground arith;
      create_ok = λ ns t u w h. ground (arith, read-put ns (name_of t) t w);
      update_ok = λ ns t u w h. ground (arith, read-put ns (name_of t) t w);
      delete_ok = λ ns name w h. ground (arith, read-remove ns name w);
      delete_absent = λ ns name w e h a. ground arith;
    }

  module _ (version_of : T → String) where
    get_in_answers :
        (ns name : String) (w : W) (o : Option T)
        → ((t : T) × ((get_in ns name w o).0 ≡ ok t))
          ⊎ ((e : ApiError) × ((get_in ns name w o).0 ≡ err e) × (e.not_found ≡ true))
    get_in_answers ns name w none = inr (absent_error, refl, refl)
    get_in_answers ns name w (some t) = inl (t, refl)

    delete_in_answers :
        (ns name : String) (w : W) (o : Option T)
        → ((delete_in ns name w o).0 ≡ ok tt)
          ⊎ ((e : ApiError) × ((delete_in ns name w o).0 ≡ err e) × (e.not_found ≡ true))
    delete_in_answers ns name w none = inr (absent_error, refl, refl)
    delete_in_answers ns name w (some t) = inl refl

    pub table-Answers : Answers table_resource name_of version_of
    table-Answers = record {
      get_answers = λ ns name w. get_in_answers ns name w _;
      create_answers = λ ns t w e h a. (t, ground arith);
      update_answers = λ ns t existing w h v. (t, ground arith);
      delete_answers = λ ns name w. delete_in_answers ns name w _;
    }

  -- The table of one kind is no part of what another kind's clients change.
  module _ {V : Type 0} (part : W → V)
      (unread : (table : Table T) (w : W) → part (write table w) ≡ part w) where
    pub table-Still : StillResource part table_resource
    table-Still = record {
      still_get = λ ns name w. ground arith;
      still_create = λ ns t w. ground (arith, unread (put ns (name_of t) t (read w)) w);
      still_update = λ ns t w. ground (arith, unread (put ns (name_of t) t (read w)) w);
      still_delete = λ ns name w. ground (arith, unread (remove ns name (read w)) w);
    }

  module _ {V : Type 0} (view : T → V) (ns name : String)
      (read-write : (table : Table T) (w : W) → read (write table w) ≡ table) where
    abbrev view_of : W → Option V
    view_of w = Option.map view (find ns name (read w))

    put-Still :
        (m : String) (t : T) (w : W)
        → (m ≢ ns) ⊎ (name_of t ≢ name)
        → view_of (write (put m (name_of t) t (read w)) w) ≡ view_of w
    put-Still m t w other =
        rw (read-write, find-put_other ns name m (name_of t) t (read w) other) refl

    remove-Still :
        (m k : String) (w : W)
        → (m ≢ ns) ⊎ (k ≢ name)
        → view_of (write (remove m k (read w)) w) ≡ view_of w
    remove-Still m k w other = rw (read-write, find-remove_other ns name m k (read w) other) refl

    -- The view of one object, and the calls for the others.
    pub table-StillOn : StillOn view_of (λ m k. (m ≢ ns) ⊎ (k ≢ name)) name_of table_resource
    table-StillOn = record {
      on_get = λ m k w. ground arith;
      on_create = λ m t other w. ground (arith, put-Still m t w other);
      on_update = λ m t other w. ground (arith, put-Still m t w other);
      on_delete = λ m k other w. ground (arith, remove-Still m k w other);
    }
