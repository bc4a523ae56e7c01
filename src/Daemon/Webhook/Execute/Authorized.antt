-- ===== src/Daemon/Webhook/Execute/Authorized.antt =====
-- Which commands a request starts, and what each run leaves behind.
use maid_cafe.Base.{
  ltb, if◌then◌else◌, Bool-cases, Result-cases, length, take, ℕ, ◌+◌, ◌≤◌, ◌≡◌, ◌⊎◌, inl, inr, refl,
  Bool, true, false, not, Option, none, some, List, [], ◌∷◌, arith,
}
use maid_cafe.Base.Text.{Bytes, codes, str_eq, str_eq_iff, trim_space}
use maid_cafe.Daemon.Webhook.{Hook, find_hook, signature_valid}
use maid_cafe.Daemon.Webhook.Slots.{Slots, acquire_slot}
use maid_cafe.Daemon.Webhook.Execute.{
  Machine, Executor, Started, RunEnd, Request, run_script_failed, run_command, run_hook, command_of,
  execute, with_slots, refused, run_signed, run_body, with_hook, run,
}

-- the commands that were started: those before, and perhaps one of a hook, on an input
pub StartsAtMost : Hook → Bytes → List Started → List Started → Type 0
StartsAtMost hook body before now =
    (now ≡ before) ⊎ ((s : Started) × (now ≡ s ∷ before) × (s.hook ≡ hook) × (s.input ≡ body))

run_hook-StartsAtMost :
    (m : Machine) (hook : Hook) (body : Bytes) (x : Executor)
    → StartsAtMost hook body x.started (run_hook m hook body x).executor.started
unfolding run_hook run_command run_script_failed StartsAtMost
run_hook-StartsAtMost m hook body x = elim (Result-cases (command_of m hook body)) [
  | inr (e, failed) ↦ rw (failed, run_hook) (inl refl)
  | inl (command, found) ↦ rw (found, run_hook) (inr (_, refl, refl, refl))
]

with_slots-started : (s : Option Slots) (x : Executor) → (with_slots s x).started ≡ x.started
unfolding with_slots
with_slots-started none x = refl
with_slots-started (some s) x = refl

execute-StartsAtMost :
    (m : Machine) (hook : Hook) (body source invoked_by : Bytes) (x : Executor)
    → StartsAtMost hook body x.started (execute m hook body source invoked_by x).executor.started
unfolding execute
execute-StartsAtMost m hook body source invoked_by x = elim (Bool-cases (acquire_slot x.slots).1) [
  | inr full ↦ rw full (unfold StartsAtMost in inl refl)
  | inl room ↦
      rw (room, with_slots-started)
        (run_hook-StartsAtMost m hook body (record x { slots = (acquire_slot x.slots).0 }))
]

-- a command that a signed request starts
pub record Signed (m : Machine) (x : Executor) (name signature : Bytes) (s : Started) : Type 0 where
  pub listed : find_hook x.tables name ≡ some s.hook
  pub enabled : s.hook.enabled ≡ true
  pub has_secret : str_eq s.hook.secret [] ≡ false
  pub signed : m.mac s.hook.secret s.input ≡ trim_space signature
  pub fits : length s.input ≤ x.max_body_bytes

-- nothing was started, or one command of which a predicate holds
pub OneMore : (Started → Type 0) → List Started → List Started → Type 0
OneMore Q before now = (now ≡ before) ⊎ ((s : Started) × (now ≡ s ∷ before) × Q s)

OneMore-execute :
    (Q : Started → Type 0) (m : Machine) (hook : Hook) (body source invoked_by : Bytes)
    (x : Executor)
    → ((s : Started) → s.hook ≡ hook → s.input ≡ body → Q s)
    → OneMore Q x.started (execute m hook body source invoked_by x).executor.started
unfolding OneMore StartsAtMost
OneMore-execute Q m hook body source invoked_by x q =
    elim (execute-StartsAtMost m hook body source invoked_by x) [
      | inl same ↦ inl same
      | inr (s, more, same_hook, same_body) ↦ inr (s, more, q s same_hook same_body)
    ]

OneMore-refused :
    (Q : Started → Type 0) (status : ℕ) (x : Executor)
    → OneMore Q x.started (refused status x).executor.started
unfolding OneMore refused
OneMore-refused Q status x = inl refl

OneMore-if :
    (Q : Started → Type 0) (x : Executor) (b : Bool) (r r' : RunEnd)
    → (b ≡ true → OneMore Q x.started r.executor.started)
    → (b ≡ false → OneMore Q x.started r'.executor.started)
    → OneMore Q x.started (if b then r else r').executor.started
OneMore-if Q x true r r' h h' = h refl
OneMore-if Q x false r r' h h' = h' refl

OneMore-with_hook :
    (Q : Started → Type 0) (found : Option Hook) (x : Executor) (continue : Hook → RunEnd)
    → ((hook : Hook)
        → found ≡ some hook
        → hook.enabled ≡ true
        → OneMore Q x.started (continue hook).executor.started)
    → OneMore Q x.started (with_hook found x continue).executor.started
unfolding with_hook
OneMore-with_hook Q none x continue h = OneMore-refused Q 404 x
OneMore-with_hook Q (some hook) x continue h =
    OneMore-if Q x (not hook.enabled) _ _ (λ off. OneMore-refused Q 404 x)
      (λ on. h hook refl (ground arith))

signature_valid-mac :
    (mac : Bytes → Bytes → Bytes) (secret body provided : Bytes)
    → signature_valid mac secret body provided ≡ true
    → (str_eq secret [] ≡ false) × (mac secret body ≡ trim_space provided)
unfolding signature_valid
signature_valid-mac mac secret body provided h =
    (ground arith, (str_eq_iff (mac secret body) (trim_space provided)).0 (ground arith))

run_signed-Signed :
    (m : Machine) (name : Bytes) (hook : Hook) (body : Bytes) (r : Request) (x : Executor)
    → find_hook x.tables name ≡ some hook
    → hook.enabled ≡ true
    → OneMore (Signed m x name r.signature) x.started (run_signed m hook body r x).executor.started
unfolding run_signed
run_signed-Signed m name hook body r x found on =
    OneMore-if _ x (ltb x.max_body_bytes (length body)) _ _ (λ large. OneMore-refused _ 413 x)
      λ fits.
        OneMore-if _ x (not (signature_valid m.mac hook.secret body r.signature)) _ _
          (λ unsigned. OneMore-refused _ 401 x)
          λ signed.
            let (secret, same) =
              signature_valid-mac m.mac hook.secret body r.signature (ground arith) in
            OneMore-execute _ m hook body (codes "http") r.invoked_by x λ s same_hook same_body.
              record {
                listed = rw same_hook found;
                enabled = rw same_hook on;
                has_secret = rw same_hook secret;
                signed = rw (same_hook, same_body) same;
                fits = rw same_body (ground arith);
              }

run_body-Signed :
    (m : Machine) (name : Bytes) (hook : Hook) (body : Option Bytes) (r : Request) (x : Executor)
    → find_hook x.tables name ≡ some hook
    → hook.enabled ≡ true
    → OneMore (Signed m x name r.signature) x.started (run_body m hook body r x).executor.started
unfolding run_body
run_body-Signed m name hook none r x found on = OneMore-refused _ 400 x
run_body-Signed m name hook (some body) r x found on =
    run_signed-Signed m name hook (take (x.max_body_bytes + 1) body) r x found on

-- A request to a webhook starts no command, or one: that of the hook of this name, which is enabled
-- and has a secret, on an input that is no longer than the limit, and the signature of the request is
-- the code of this input under the secret.
pub run-Signed :
    (m : Machine) (name : Bytes) (r : Request) (x : Executor)
    → OneMore (Signed m x name r.signature) x.started (run m name r x).executor.started
unfolding run
run-Signed m name r x =
    OneMore-with_hook _ (find_hook x.tables name) x _
      λ hook found on. run_body-Signed m name hook r.body r x found on
