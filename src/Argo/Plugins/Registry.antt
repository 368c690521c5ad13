-- ===== src/Argo/Plugins/Registry.antt =====
-- k8sargo.go: RegisterPlugin and UnregisterPlugin, over the client for workflow templates.
use cloudcompute.Base.{
  ℕ, ◌-◌, ◌%◌, ◌^◌, String, List, Bool, Option, none, some, cond, ltb, Outcome, return, panic,
  ◌>>=◌,
}
use cloudcompute.Base.Int.{ℤ, pos, negsuc}
use cloudcompute.Base.Text.{join}
use cloudcompute.Jobs.{Plugin, PluginRegistrationOutput}
use cloudcompute.Argo.{Encoding}
use cloudcompute.Argo.Plugins.{WorkflowTemplate, plugin_to_workflow_template}

-- What Argo answers to a template that it has stored; the generation is not negative.
pub record StoredTemplate : Type 0 where
  pub name : String
  pub namespace : String
  pub uid : String
  pub resource_version : String
  pub generation : ℕ

-- `NewWorkflowTemplateServiceClient` with its requests; `none` and `false` are errors.
pub record TemplateClient : Type 0 where
  pub create_workflow_template : String → WorkflowTemplate → Option StoredTemplate
  pub delete_workflow_template : String → String → Bool

-- The conversion to int32.
unfoldable pub to_int32 : ℕ → ℤ
to_int32 n = let r = n % 2 ^ 32 in cond (ltb r (2 ^ 31)) (pos r) (negsuc (2 ^ 32 - 1 - r))

module _ (enc : Encoding) (formats : List (String × String)) (to_lower : String → String)
    (parses : String → Bool) (connect : Option TemplateClient) (namespace : String) where
  abbrev pub output_of : Option StoredTemplate → Option PluginRegistrationOutput
  unfolding to_int32
  output_of none = none
  output_of (some t) = some (record {
    name = to_lower t.name;
    resource_name =
        join t.namespace
          (join "::" (join t.name (join "::" (join t.uid (join "::" t.resource_version)))));
    revision = to_int32 t.generation;
  })

  abbrev pub created : TemplateClient → Option WorkflowTemplate → Option PluginRegistrationOutput
  created client none = none
  created client (some template) = output_of (client.create_workflow_template namespace template)

  unfoldable pub register_plugin : Plugin → Outcome (Option PluginRegistrationOutput)
  unfolding plugin_to_workflow_template
  register_plugin plugin = elim connect [
    | none ↦ return none
    | some client ↦ plugin_to_workflow_template enc formats to_lower parses plugin >>= λ template.
        return (created client template)
  ]

  -- The error of the connection is overwritten, so that without a client the call on it panics.
  unfoldable pub unregister_plugin : String → Outcome Bool
  unregister_plugin name_and_revision = elim connect [
    | none ↦ panic
    | some client ↦ return (client.delete_workflow_template name_and_revision namespace)
  ]
