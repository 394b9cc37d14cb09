-- ===== src/Reconciler/Domain/Progress.antt =====
-- A custom domain is mapped whenever the API server answers.
use hydra_operator.Base.{String, ◌≡◌, refl, Option, some, true, ok, err, arith, inl, inr}
use hydra_operator.Base.Dict.{Dict}
use hydra_operator.Kube.Objects.{DomainMapping, Reference}
use hydra_operator.Kube.Calls.{ApiError}
use hydra_operator.Kube.Env.{Env, Session, ◌>>=◌, pure, or_return, get, create, update}
use hydra_operator.Kube.Laws.{Obeys, Answers}
use hydra_operator.Reconciler.Domain.{build_mapping, carry_forward, apply_mapping, reconcile_one}
use hydra_operator.Reconciler.Domain.Settles.{mapping_name, mapping_view, apply_mapping-mapping}

abbrev pub mapping_version : DomainMapping → String
mapping_version m = m.meta.resource_version

module _ (env : Env) (answers : Answers env.domain_mappings mapping_name mapping_version)
    (ns hostname ksvc_name : String) where
  abbrev desired : DomainMapping
  desired = build_mapping ns hostname ksvc_name

  create_answered :
      (w : env.World) (e : ApiError)
      → (env.domain_mappings.get ns hostname w).0 ≡ err e
      → e.not_found ≡ true
      → (u : DomainMapping) × ((env.domain_mappings.create ns desired
            (env.domain_mappings.get ns hostname w).1).0
          ≡ ok u)
  unfolding build_mapping
  create_answered = answers.create_answers ns desired

  update_answered :
      (w : env.World) (existing : DomainMapping)
      → (env.domain_mappings.get ns hostname w).0 ≡ ok existing
      → (u : DomainMapping) × ((env.domain_mappings.update ns
            (carry_forward desired existing)
            (env.domain_mappings.get ns hostname w).1).0
          ≡ ok u)
  unfolding build_mapping
  update_answered w existing found =
      answers.update_answers ns (carry_forward desired existing) existing w found refl

  apply_mapping-answered :
      (s : Session env.World)
      → (m : DomainMapping) × ((apply_mapping env ns hostname ksvc_name s).0 ≡ ok m)
  unfolding apply_mapping or_return get create update pure
  apply_mapping-answered s = elim (answers.get_answers ns hostname s.world) [
    | inl (existing, found) ↦
        let (u, done) = update_answered s.world existing found in (u, ground arith)
    | inr (e, failed, absent) ↦
        let (u, done) = create_answered s.world e failed absent in (u, ground arith)
  ]

  -- When the API for DomainMappings answers and obeys its laws, the mapping of the hostname is in
  -- the namespace after `reconcileOne`, whatever status is reported.
  pub mapping-progress :
      (seen : String → String → env.World → Option (Dict String × Reference))
      → Obeys env.domain_mappings seen mapping_name mapping_view
      → (s : Session env.World)
      → seen ns hostname (reconcile_one env ns hostname ksvc_name s).1.world
        ≡ some (mapping_view desired)
  unfolding reconcile_one ◌>>=◌ pure
  mapping-progress seen laws s =
      let (m, done) = apply_mapping-answered s in
      apply_mapping-mapping env seen laws ns hostname ksvc_name s m done
