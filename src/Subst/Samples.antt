-- ===== src/Subst/Samples.antt =====
-- Runs of the substitution.
use servicrab.Base.{true, none, some, [], ◌∷◌, codes, ◌≡◌, refl, same, ok, err}
use servicrab.Base.Map
use servicrab.Base.Chars.{split_once, strip_suffix}
use servicrab.Raw.{RawConfig, never}
use servicrab.Errors.{undefined_variable, service_scope, plain}
use servicrab.Errors.Checked.{◌>>=◌}
use servicrab.Subst.{
  Vars, in_body, scan, closing_brace, split_braced, split_rest_of_name, split_name, lookup,
  value_or, resolve, and_then, expand_rest, malformed, missing_brace,
}
use servicrab.Subst.Splits.{escape}
use servicrab.Subst.Templates.{
  body, Template, ends, continues, required, with_default, written, meaning,
}
use servicrab.Subst.Values.{
  expand, expand-written, expand_one, expand_maybe, expand_list, expand_map, expand_env_file,
  expand_logs, expand_health, expand_watch, expand_service, expand_services, expand_raw,
}
use servicrab.Subst.Walk.{Covers, values_of}
use servicrab.Subst.Covered.{expand_raw-Covers}

abbrev vars : Vars
vars = (codes "EMPTY", []) ∷ (codes "PORT", codes "80") ∷ []

abbrev address : Template
address =
    continues (codes "h${") (required (codes "PORT"))
      (continues (codes "/") (with_default true (codes "EMPTY") (codes "d")) (ends (codes "!")))

written-address : written address ≡ codes "h$${${PORT}/${EMPTY:-d}!"
unfolding written escape body
written-address = refl

expand-address : expand (codes "h$${${PORT}/${EMPTY:-d}!") vars ≡ ok (codes "h${80/d!")
unfolding expand expand_rest split_once strip_suffix split_braced closing_brace scan in_body resolve
    split_name split_rest_of_name lookup value_or and_then Map.get same
expand-address = refl

expand-written_example : expand (written address) vars ≡ meaning vars address
unfolding strip_suffix
expand-written_example = expand-written address vars (refl, refl, (refl, (refl, refl), tt))

-- A brace behind `$$` counts for the nesting.
escaped_brace_counts :
    expand (codes "${X:-$${}") vars ≡ err (malformed (missing_brace (codes "X:-$${}")))
unfolding expand expand_rest split_once strip_suffix split_braced closing_brace scan in_body
    and_then
escaped_brace_counts = refl

abbrev raw : RawConfig
raw = record {
  version = 1;
  include = none;
  project = record { name = codes "p"; env = []; env_file = none; logs = none };
  services =
      (
        codes "web",
        record {
          origin = none;
          command = codes "serve" ∷ codes "${PORT}" ∷ [];
          cwd = some (codes "${HOME}");
          env = [];
          env_file = none;
          depends_on = none;
          profiles = [];
          autostart = true;
          restart = never;
          restart_delay = none;
          restart_max_delay = none;
          max_restarts = none;
          stable_after = none;
          shutdown_signal = none;
          shutdown_timeout = none;
          health = none;
          logs = none;
          watch = none;
        },
      )
      ∷ [];
}

raw_values :
    values_of (expand_raw vars raw).value ≡ codes "serve" ∷ codes "80" ∷ codes "${HOME}" ∷ []
unfolding ◌>>=◌ expand_raw expand_services expand_service expand_list expand_maybe expand_map
    expand_one expand_env_file expand_logs expand_health expand_watch expand expand_rest split_once
    strip_suffix split_braced closing_brace scan in_body resolve split_name split_rest_of_name
    lookup value_or and_then Map.get same
raw_values = refl

raw_errors :
    (expand_raw vars raw).errors
    ≡ undefined_variable (service_scope (codes "web")) (plain (codes "cwd")) (codes "HOME") ∷ []
unfolding ◌>>=◌ expand_raw expand_services expand_service expand_list expand_maybe expand_map
    expand_one expand_env_file expand_logs expand_health expand_watch expand expand_rest split_once
    strip_suffix split_braced closing_brace scan in_body resolve split_name split_rest_of_name
    lookup value_or and_then Map.get same
raw_errors = refl

expand_raw-Covers_example :
    Covers vars (values_of (expand_raw vars raw).value) (expand_raw vars raw).errors (values_of raw)
expand_raw-Covers_example = expand_raw-Covers vars raw
