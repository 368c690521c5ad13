-- ===== src/Argo/Patches/Order.antt =====
-- spec-overrides.go: the orders in which the placeholders of a patch are replaced.
use cloudcompute.Base.{
  ℕ, ap, String, ◌≡◌, refl, ◌∙◌, List, [], ◌∷◌, Bool, true, false, cond, ite, map, ◌&&◌, ◌||◌,
  String_discrete, ◌==◌, All, arith, Bool-cases, inl, inr,
}
use cloudcompute.Base.Text.{join}
use cloudcompute.Jobs.{Plugin}
use cloudcompute.Argo.Patches.{
  Placeholder, seconds, env, vcpu, memory, exec_command, exec_args, dynamic_substitution_formats,
  replace_from, valid_to_invalid_json, marshal, get_default_pod_spec_patch_json, has_timeout,
  get_default_pod_spec_patch, texts,
}
use cloudcompute.Argo.Patches.Replacing.{is_closed, replace_from-join}

abbrev number : Placeholder → ℕ
number seconds = 0
number env = 1
number vcpu = 2
number memory = 3
number exec_command = 4
number exec_args = 5

abbrev pub mentions : Placeholder → List Placeholder → Bool
mentions q [] = false
mentions q (p ∷ order) = number q == number p || mentions q order

abbrev pub placeholders : List Placeholder
placeholders = seconds ∷ env ∷ vcpu ∷ memory ∷ exec_command ∷ exec_args ∷ []

abbrev pub finished_patch : Bool → String
finished_patch timeout = texts (
    "{"
    ∷ cond timeout "\"activeDeadlineSeconds\":{{inputs.parameters.ExecutionTimeout}}," ""
    ∷ "\"containers\":[{\"name\":\"main\",\"resources\":{"
    ∷ "\"limits\":{\"cpu\":\"{{inputs.parameters.VCPU}}\","
    ∷ "\"memory\":\"{{inputs.parameters.Memory}}\"},"
    ∷ "\"requests\":{\"cpu\":\"{{inputs.parameters.VCPU}}\","
    ∷ "\"memory\":\"{{inputs.parameters.Memory}}\"}},"
    ∷ "\"env\":{{inputs.parameters.DagTaskEnv}},"
    ∷ "\"command\":[\"{{inputs.parameters.ExecCommand}}\"],"
    ∷ "\"args\":{{=inputs.parameters.ExecArgs}}}]}"
    ∷ [])

-- A text, or a placeholder and the text behind it.
data Piece : Type 0 where
  fixed : String → Piece
  hole : Placeholder → String → Piece

abbrev shown : Placeholder → Bool → String
shown p done = let (key, value) = dynamic_substitution_formats p in cond done value key

abbrev shown_piece : (Placeholder → Bool) → Piece → String
shown_piece done (fixed text) = text
shown_piece done (hole p behind) = join (shown p (done p)) behind

abbrev render : (Placeholder → Bool) → List Piece → String
render done [] = ""
render done (piece ∷ pieces) = join (shown_piece done piece) (render done pieces)

abbrev deadline : Bool → List Piece → List Piece
deadline timeout pieces =
    cond timeout (fixed "\"activeDeadlineSeconds\":" ∷ hole seconds "," ∷ pieces) pieces

abbrev layout : Bool → List Piece
layout timeout =
    fixed "{"
    ∷ deadline timeout (
        fixed "\"containers\":[{\"name\":\"main\",\"resources\":{\"limits\":{\"cpu\":"
        ∷ hole vcpu ",\"memory\":"
        ∷ hole memory "},\"requests\":{\"cpu\":"
        ∷ hole vcpu ",\"memory\":"
        ∷ hole memory "}},\"env\":"
        ∷ hole env ",\"command\":"
        ∷ hole exec_command ",\"args\":"
        ∷ hole exec_args "}]}"
        ∷ [])

abbrev replaced : Placeholder → String → String
replaced p text = let (key, value) = dynamic_substitution_formats p in replace_from key value 0 text

abbrev becomes : Placeholder → String → String → Bool
becomes p s t =
    is_closed (dynamic_substitution_formats p).0 s
    && ite (String_discrete (replaced p s) t) true false

-- The replacement of a placeholder changes this placeholder and no other piece.
abbrev fits : Placeholder → Piece → Bool
fits p (fixed text) = becomes p text text
fits p (hole q behind) =
    becomes p (join (shown q true) behind) (join (shown q true) behind)
    && becomes p (join (shown q false) behind) (join (shown q (number q == number p)) behind)

abbrev all_fit : Placeholder → List Piece → Bool
all_fit p [] = true
all_fit p (piece ∷ pieces) = fits p piece && all_fit p pieces

layout-fits : (p : Placeholder) (timeout : Bool) → all_fit p (layout timeout) ≡ true
unfolding replace_from dynamic_substitution_formats String_discrete
layout-fits seconds true = refl
layout-fits seconds false = refl
layout-fits env true = refl
layout-fits env false = refl
layout-fits vcpu true = refl
layout-fits vcpu false = refl
layout-fits memory true = refl
layout-fits memory false = refl
layout-fits exec_command true = refl
layout-fits exec_command false = refl
layout-fits exec_args true = refl
layout-fits exec_args false = refl

abbrev marked : Placeholder → (Placeholder → Bool) → Placeholder → Bool
marked p done q = done q || number q == number p

becomes-join :
    (p : Placeholder) (s t rest : String)
    → becomes p s t ≡ true
    → replaced p (join s rest) ≡ join t (replaced p rest)
becomes-join p s t rest h =
    let (key, value) = dynamic_substitution_formats p in
    elim (String_discrete (replaced p s) t) [
      | yes same ↦
          replace_from-join key value 0 s rest (ground (arith, same)) (omega arith) ∙ rw same refl
      | no other ↦ ground (arith, other)
    ]

shown-becomes :
    (p : Placeholder) (done : Placeholder → Bool) (piece : Piece)
    → fits p piece ≡ true
    → becomes p (shown_piece done piece) (shown_piece (marked p done) piece) ≡ true
shown-becomes p done (fixed text) h = h
shown-becomes p done (hole q behind) h = ground arith

render-replaced :
    (p : Placeholder) (done : Placeholder → Bool) (pieces : List Piece)
    → all_fit p pieces ≡ true
    → replaced p (render done pieces) ≡ render (marked p done) pieces
unfolding replace_from
render-replaced p done [] h = refl
render-replaced p done (piece ∷ pieces) h =
    becomes-join p (shown_piece done piece) (shown_piece (marked p done) piece) (render done pieces)
      (shown-becomes p done piece (ground arith))
    ∙ rw (render-replaced p done pieces (ground arith)) refl

render-≡ :
    (done done' : Placeholder → Bool) (pieces : List Piece)
    → ((q : Placeholder) → done q ≡ done' q)
    → render done pieces ≡ render done' pieces
render-≡ done done' [] h = refl
render-≡ done done' (fixed text ∷ pieces) h = rw (render-≡ done done' pieces h) refl
render-≡ done done' (hole q behind ∷ pieces) h = rw (render-≡ done done' pieces h, h q) refl

valid_to_invalid_json-render :
    (timeout : Bool) (order : List Placeholder) (done done' : Placeholder → Bool)
    → ((q : Placeholder) → (done q || mentions q order) ≡ done' q)
    → valid_to_invalid_json (map dynamic_substitution_formats order) (render done (layout timeout))
      ≡ render done' (layout timeout)
unfolding valid_to_invalid_json
valid_to_invalid_json-render timeout [] done done' h =
    render-≡ done done' (layout timeout) (λ q. ground (arith, h q))
valid_to_invalid_json-render timeout (p ∷ order) done done' h =
    ap (valid_to_invalid_json (map dynamic_substitution_formats order))
      (render-replaced p done (layout timeout) (layout-fits p timeout))
    ∙ valid_to_invalid_json-render timeout order (marked p done) done' (λ q. ground (arith, h q))

mentioned :
    (order : List Placeholder)
    → All (λ p. mentions p order ≡ true) placeholders
    → (q : Placeholder) → (false || mentions q order) ≡ true
mentioned order all seconds = all.0
mentioned order all env = all.1.0
mentioned order all vcpu = all.1.1.0
mentioned order all memory = all.1.1.1.0
mentioned order all exec_command = all.1.1.1.1.0
mentioned order all exec_args = all.1.1.1.1.1.0

default_patch :
    (plugin : Plugin)
    → marshal (get_default_pod_spec_patch plugin)
      ≡ render (λ q. false) (layout (has_timeout plugin.execution_timeout))
unfolding marshal get_default_pod_spec_patch dynamic_substitution_formats String_discrete
default_patch plugin = elim (Bool-cases (has_timeout plugin.execution_timeout)) [
  | inl limited ↦ rw limited refl
  | inr unlimited ↦ rw unlimited refl
]

finished : (timeout : Bool) → render (λ q. true) (layout timeout) ≡ finished_patch timeout
unfolding dynamic_substitution_formats
finished true = refl
finished false = refl

-- In whatever order `range` visits the six formats, the patch of a plugin's pod is the text in
-- which each placeholder, with its quotes, is the expression of the workflow: those of the
-- environment and of the arguments without quotes, the command as the one element of an array, and
-- the number of seconds, without quotes, only where the plugin has a timeout above 0.
pub get_default_pod_spec_patch_json_lem :
    (order : List Placeholder) (plugin : Plugin)
    → All (λ p. mentions p order ≡ true) placeholders
    → get_default_pod_spec_patch_json (map dynamic_substitution_formats order) plugin
      ≡ finished_patch (has_timeout plugin.execution_timeout)
unfolding get_default_pod_spec_patch_json
get_default_pod_spec_patch_json_lem order plugin all =
    let timeout = has_timeout plugin.execution_timeout in
    ap (valid_to_invalid_json (map dynamic_substitution_formats order)) (default_patch plugin)
    ∙ valid_to_invalid_json-render timeout order (λ q. false) (λ q. true) (mentioned order all)
    ∙ finished timeout
