-- ===== src/Argo/Plugins/Volumes.antt =====
-- What becomes of a plugin's volumes.
use cloudcompute.Base.{
  ℕ, suc, ◌+◌, ◌≤◌, ◌<◌, ◌≡◌, ◌≢◌, refl, String, List, [], ◌∷◌, Bool, Option, none, some, cond,
  true, arith, length, Outcome, return, panic, ◌>>=◌,
}
use cloudcompute.Jobs.{Plugin, PluginComputeVolumes}
use cloudcompute.Argo.{Encoding}
use cloudcompute.Argo.Patches.{get_default_pod_spec_patch_json}
use cloudcompute.Argo.Plugins.{
  add_volumes, plugin_to_workflow_template, WorkflowTemplate, template_parameters,
  cc_credentials_to_template_env, valid_storage, privileged_volumes, finished_template,
}

add_volumes-fits :
    (i devices : ℕ) (volumes : List PluginComputeVolumes)
    → i + length volumes ≤ devices
    → add_volumes i devices volumes ≡ return tt
unfolding add_volumes
add_volumes-fits i devices [] h = refl
add_volumes-fits i devices (v ∷ volumes) h =
    ground (arith, add_volumes-fits (suc i) devices volumes)

add_volumes-over :
    (i devices : ℕ) (volumes : List PluginComputeVolumes)
    → i ≤ devices
    → devices < i + length volumes
    → add_volumes i devices volumes ≡ panic
unfolding add_volumes
add_volumes-over i devices [] le h = absurd (omega (arith, le, h))
add_volumes-over i devices (v ∷ volumes) le h =
    ground (arith, add_volumes-over (suc i) devices volumes)

module _ (enc : Encoding) (formats : List (String × String)) (to_lower : String → String)
    (parses : String → Bool) where
  -- The template, by what becomes of the volumes.
  template_by : Plugin → Outcome Unit → Outcome (Option WorkflowTemplate)
  template_by plugin volumes = template_parameters enc plugin plugin.command >>= λ parameters.
      cc_credentials_to_template_env plugin.credentials >>= λ credentials.
      cond (valid_storage enc formats to_lower parses plugin.compute_environment.ephemeral_storage)
        (volumes >>= λ u. privileged_volumes plugin.privileged plugin.devices >>= λ made.
          return (
            some
              (finished_template enc formats to_lower parses plugin parameters credentials made)))
        (return none)

  template_by_volumes :
      (plugin : Plugin)
      → plugin_to_workflow_template enc formats to_lower parses plugin
        ≡ template_by plugin (add_volumes 0 (length plugin.devices) plugin.volumes)
  unfolding plugin_to_workflow_template template_by
  template_by_volumes plugin = refl

  template_by-panic :
      (plugin : Plugin) (t : WorkflowTemplate) → template_by plugin panic ≢ return (some t)
  unfolding template_by
  template_by-panic plugin t h = ground (arith, h)

  template_by-valid :
      (plugin : Plugin)
      → valid_storage enc formats to_lower parses plugin.compute_environment.ephemeral_storage
        ≡ true
      → template_by plugin panic ≡ panic
  unfolding template_by
  template_by-valid plugin valid = ground (arith, valid)

  -- No volume of a plugin comes into its template: with no more volumes than devices, the template
  -- is that of the plugin without volumes. With more volumes than devices there is no template, and
  -- where the size of the ephemeral storage is valid, the plugin panics.
  pub plugin_to_workflow_template-volumes :
      (plugin : Plugin)
      → (length plugin.volumes ≤ length plugin.devices
          → plugin_to_workflow_template enc formats to_lower parses plugin
            ≡ plugin_to_workflow_template enc formats to_lower parses
                (record plugin { volumes = [] }))
        × (length plugin.devices < length plugin.volumes
            → ((t : WorkflowTemplate)
                → plugin_to_workflow_template enc formats to_lower parses plugin ≢ return (some t))
              × (valid_storage enc formats to_lower parses
                      plugin.compute_environment.ephemeral_storage
                    ≡ true
                  → plugin_to_workflow_template enc formats to_lower parses plugin ≡ panic))
  unfolding template_parameters get_default_pod_spec_patch_json template_by
  plugin_to_workflow_template-volumes plugin = (
    λ h.
        rw
          (
            template_by_volumes plugin,
            add_volumes-fits 0 (length plugin.devices) plugin.volumes (omega (arith, h)),
          )
          (rw
            (
              template_by_volumes (record plugin { volumes = [] }),
              add_volumes-fits 0 (length plugin.devices) [] (omega arith),
            )
            refl),
    λ h.
        let over =
          add_volumes-over 0 (length plugin.devices) plugin.volumes (omega arith)
            (omega (arith, h)) in
        let same = template_by_volumes plugin in
        (
          λ t e. template_by-panic plugin t (rw (same, over) at e),
          λ valid. rw (same, over) (template_by-valid plugin valid),
        ),
  )
