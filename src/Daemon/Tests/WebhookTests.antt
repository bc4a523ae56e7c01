-- ===== src/Daemon/Tests/WebhookTests.antt =====
-- The laws of the webhook executor at concrete inputs, and runs of its functions.
use maid_cafe.Base.{ltb, if◌then◌else◌, ◌≤◌, ◌≡◌, refl, true, false, none, some, [], ◌∷◌, ◌++◌}
use maid_cafe.Base.Int.{pos}
use maid_cafe.Base.Text.{codes, str_eq, strip_prefix}
use maid_cafe.Daemon.Webhook.{Hook, limited_write, collect}
use maid_cafe.Daemon.Webhook.Slots.{acquire_slot, set_max_concurrent_runs, release_slot}
use maid_cafe.Daemon.Webhook.Slots.InStep.{starts, ends, run_pool, new_pool, run_pool-lets_in}
use maid_cafe.Daemon.Webhook.Script.{
  placeholder, replace_placeholders, span_plain, group_of, drop_blanks, is_blank,
  prepend_working_directory,
}
use maid_cafe.Daemon.Webhook.Script.Quoting.{ChangesInto, prepend_working_directory-ChangesInto}
use maid_cafe.Daemon.Webhook.Execute.{Machine, Executor, Request, run}
use maid_cafe.Daemon.Webhook.Execute.Authorized.{OneMore, Signed, run-Signed}

run_pool-lets_in_example :
    ((run_pool (starts ∷ starts ∷ starts ∷ ends ∷ []) (new_pool 2)).running ≤ 2)
    × ((acquire_slot (run_pool (starts ∷ starts ∷ starts ∷ ends ∷ []) (new_pool 2)).slots).1
        ≡ ltb (run_pool (starts ∷ starts ∷ starts ∷ ends ∷ []) (new_pool 2)).running 2)
    × ((run_pool (starts ∷ starts ∷ starts ∷ ends ∷ []) (new_pool 2)).stuck ≡ false)
run_pool-lets_in_example = run_pool-lets_in 2 (starts ∷ starts ∷ starts ∷ ends ∷ [])

-- The slots are replaced while a run is under way: its release finds no token and waits.
release-replaced : release_slot (set_max_concurrent_runs 4) ≡ none
unfolding release_slot set_max_concurrent_runs
release-replaced = refl

prepend_working_directory-ChangesInto_example :
    ChangesInto
      (codes "/srv/it's")
      (codes "#!/bin/sh\nls\n")
      (prepend_working_directory (codes "/srv/it's") (codes "#!/bin/sh\nls\n"))
prepend_working_directory-ChangesInto_example =
    prepend_working_directory-ChangesInto (codes "/srv/it's") (codes "#!/bin/sh\nls\n")

replace-placeholder :
    replace_placeholders 20
      (λ name. if str_eq name (codes "A") then some (codes "x") else none)
      (codes "p{{ A }}{{{B}}q")
    ≡ (codes "px{{{B}}q", codes "B" ∷ [])
unfolding replace_placeholders placeholder span_plain group_of drop_blanks is_blank strip_prefix
    str_eq
replace-placeholder = refl

-- A write that passes the limit is cut, and the copying ends with an error.
collect-cut :
    collect (codes "abc" ∷ codes "def" ∷ []) (record { buf = []; limit = 4 })
    ≡ (record { buf = codes "abcd"; limit = 4 }, true)
unfolding collect limited_write
collect-cut = refl

abbrev deploy : Hook
deploy = record {
  name = codes "deploy";
  secret = codes "s";
  command = codes "/opt/deploy";
  args = [];
  enabled = true;
  display_name = [];
  script = false;
  cwd = [];
  user = [];
  env = [];
  timeout = pos 0;
}

abbrev box : Machine
box = record {
  mac = λ secret body. secret ++ body;
  read_script = λ path. none;
  value_of = λ body name. none;
  render = λ hook script. none;
  error_text = λ e. [];
  run = λ s. record { failed = false; code = none; timed_out = false; stdout = []; stderr = [] };
}

abbrev executor : Executor
executor = record {
  tables = record { webhooks = deploy ∷ []; actions = [] };
  script_timeout = pos 60;
  max_body_bytes = 100;
  slots = record { capacity = 1; tokens = 0 };
  successes = 0;
  failures = 0;
  audit = [];
  completed = [];
  started = [];
}

abbrev signed_request : Request
signed_request = record { body = some (codes "b"); signature = codes "sb"; invoked_by = [] }

run-Signed_example :
    OneMore
      (Signed box executor (codes "deploy") (codes "sb"))
      []
      (run box (codes "deploy") signed_request executor).executor.started
run-Signed_example = run-Signed box (codes "deploy") signed_request executor
