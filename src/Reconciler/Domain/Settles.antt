-- ===== src/Reconciler/Domain/Settles.antt =====
-- What the reconciliation of a custom domain leaves in the cluster, and what it reports.
use hydra_operator.Base.{String, ◌≡◌, Option, some, ok, arith, ◌≢◌, eq_iff, Result-cases, inl, inr}
use hydra_operator.Base.Dict.{Dict}
use hydra_operator.Kube.Objects.{DomainMapping, Reference}
use hydra_operator.Kube.Env.{Env, Session, ◌>>=◌, or_return, get, create, update}
use hydra_operator.Kube.Laws.{Obeys}
use hydra_operator.Reconciler.Domain.{
  build_mapping, carry_forward, apply_mapping, outcome, reconcile_one,
}

abbrev pub mapping_name : DomainMapping → String
mapping_name m = m.meta.name

-- What the operator decides of a mapping: its labels and the service that it refers to.
abbrev pub mapping_view : DomainMapping → Dict String × Reference
mapping_view m = (m.meta.labels, m.ref)

error_ne_active : ◌≢◌ {A = String} "error" "active"
error_ne_active = ground (arith, eq_iff "error" "active")

module _ (env : Env) (seen : String → String → env.World → Option (Dict String × Reference))
    (laws : Obeys env.domain_mappings seen mapping_name mapping_view)
    (ns hostname ksvc_name : String) where
  abbrev desired : DomainMapping
  desired = build_mapping ns hostname ksvc_name

  created :
      (u : DomainMapping) (w : env.World)
      → (env.domain_mappings.create ns desired w).0 ≡ ok u
      → seen ns hostname (env.domain_mappings.create ns desired w).1 ≡ some (mapping_view desired)
  unfolding build_mapping
  created = laws.create_ok ns desired

  updated :
      (existing u : DomainMapping) (w : env.World)
      → (env.domain_mappings.update ns (carry_forward desired existing) w).0 ≡ ok u
      → seen ns hostname (env.domain_mappings.update ns (carry_forward desired existing) w).1
        ≡ some (mapping_view desired)
  unfolding build_mapping
  updated existing = laws.update_ok ns (carry_forward desired existing)

  pub apply_mapping-mapping :
      (s : Session env.World) (m : DomainMapping)
      → (apply_mapping env ns hostname ksvc_name s).0 ≡ ok m
      → seen ns hostname (apply_mapping env ns hostname ksvc_name s).1.world
        ≡ some (mapping_view desired)
  unfolding apply_mapping or_return get create update
  apply_mapping-mapping s m h =
      elim (Result-cases (env.domain_mappings.get ns hostname s.world).0) [
        | inl (existing, found) ↦ grind (arith, updated existing)
        | inr (e, failed) ↦ grind (arith, created)
      ]

  -- When the API for DomainMappings obeys its laws, `reconcileOne` reports a hostname active only if
  -- the mapping of the hostname is in the namespace with the labels and the reference of the code.
  pub reconcile_one-active :
      (s : Session env.World)
      → (reconcile_one env ns hostname ksvc_name s).0.status ≡ "active"
      → seen ns hostname (reconcile_one env ns hostname ksvc_name s).1.world
        ≡ some (mapping_view desired)
  unfolding reconcile_one ◌>>=◌ outcome
  reconcile_one-active s h = grind (arith, apply_mapping-mapping, error_ne_active)
