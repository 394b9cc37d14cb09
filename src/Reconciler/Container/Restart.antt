-- ===== src/Reconciler/Container/Restart.antt =====
-- A manual restart reaches the cluster by an annotation of the revision template.
use hydra_operator.Base.{ℕ, String, ◌≡◌, ◌≢◌, some, some, arith, eq_iff, ◌∙◌, [], ◌∷◌}
use hydra_operator.Base.Int.{ℤ, pos}
use hydra_operator.Base.Decimal.{itoa, itoa_injective}
use hydra_operator.Base.Dict.{Dict, lookup, lookup-insert}
use hydra_operator.Wire
use hydra_operator.Kube.Env.{Env}
use hydra_operator.Reconciler.Container.Defs.{
  restart_generation_annotation, set_scale, build_annotations, build_service,
}

min_ne_restart : ◌≢◌ {A = String} "autoscaling.knative.dev/min-scale" restart_generation_annotation
min_ne_restart =
    ground (arith, eq_iff "autoscaling.knative.dev/min-scale" restart_generation_annotation)

max_ne_restart : ◌≢◌ {A = String} "autoscaling.knative.dev/max-scale" restart_generation_annotation
max_ne_restart =
    ground (arith, eq_iff "autoscaling.knative.dev/max-scale" restart_generation_annotation)

lookup-set_scale :
    (name : String) (scale : ℤ) (m : Dict String)
    → name ≢ restart_generation_annotation
    → lookup restart_generation_annotation (set_scale name scale m)
      ≡ lookup restart_generation_annotation m
lookup-set_scale name scale m other = ground (
  arith,
  lookup-insert name restart_generation_annotation (itoa scale) m,
  eq_iff restart_generation_annotation name,
)

abbrev first_annotation : Wire.Container → Dict String
first_annotation c = (restart_generation_annotation, itoa c.restart_generation) ∷ []

-- The template always carries the restart generation, whatever the scaling annotations are.
build_annotations-restart :
    (c : Wire.Container)
    → lookup restart_generation_annotation (build_annotations c) ≡ some (itoa c.restart_generation)
unfolding build_annotations
build_annotations-restart c =
    lookup-set_scale _ c.scaling.max_scale
      (set_scale "autoscaling.knative.dev/min-scale" c.scaling.min_scale (first_annotation c))
      max_ne_restart
    ∙ lookup-set_scale _ c.scaling.min_scale (first_annotation c) min_ne_restart

-- Two desired states of a container with different restart generations, both non-negative, give
-- different revision templates, whatever else they have in common.
pub build_service-restart :
    (env : Env) (name : String) (c d : Wire.Container) (m n : ℕ)
    → c.restart_generation ≡ pos m
    → d.restart_generation ≡ pos n
    → m ≢ n
    → (build_service env name c).spec.template ≢ (build_service env name d).spec.template
unfolding build_service
build_service-restart env name c d m n p q differ same =
    differ
      (itoa_injective m n (cc (p, q, build_annotations-restart c, build_annotations-restart d)))
