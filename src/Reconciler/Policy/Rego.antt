-- ===== src/Reconciler/Policy/Rego.antt =====
-- The Rego programs of internal/reconciler/policy.go.
use hydra_operator.Base.{String, ◌<>◌}

unfoldable pub required_resource_limits_rego : String
required_resource_limits_rego =
    "package k8srequiredresourcelimits\n" <> "\n" <> "violation[{\"msg\": msg}] {\n"
    <> "\tcontainer := input.review.object.spec.containers[_]\n"
    <> "\tnot container.resources.limits.cpu\n"
    <> "\tmsg := sprintf(\"container <%v> has no cpu limit\", [container.name])\n" <> "}\n" <> "\n"
    <> "violation[{\"msg\": msg}] {\n" <> "\tcontainer := input.review.object.spec.containers[_]\n"
    <> "\tnot container.resources.limits.memory\n"
    <> "\tmsg := sprintf(\"container <%v> has no memory limit\", [container.name])\n" <> "}\n"

unfoldable pub block_privileged_rego : String
block_privileged_rego =
    "package k8sblockprivileged\n" <> "\n" <> "violation[{\"msg\": msg}] {\n"
    <> "\tcontainer := input.review.object.spec.containers[_]\n"
    <> "\tcontainer.securityContext.privileged\n"
    <> "\tmsg := sprintf(\"container <%v> must not set privileged: true\", [container.name])\n"
    <> "}\n" <> "\n" <> "violation[{\"msg\": msg}] {\n"
    <> "\tcontainer := input.review.object.spec.containers[_]\n"
    <> "\tcontainer.securityContext.allowPrivilegeEscalation\n"
    <> "\tmsg := sprintf(\"container <%v> must not set allowPrivilegeEscalation: true\", [container.name])\n"
    <> "}\n"

unfoldable pub allowed_repos_rego : String
allowed_repos_rego =
    "package k8sallowedrepos\n" <> "\n" <> "violation[{\"msg\": msg}] {\n"
    <> "\tcontainer := input.review.object.spec.containers[_]\n"
    <> "\tsatisfied := [good | repo = input.parameters.repos[_]; good = startswith(container.image, repo)]\n"
    <> "\tnot any(satisfied)\n"
    <> "\tmsg := sprintf(\"container <%v> has image <%v> from a registry not in the allowed list %v\", [container.name, container.image, input.parameters.repos])\n"
    <> "}\n"
