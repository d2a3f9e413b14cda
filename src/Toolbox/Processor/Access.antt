-- ===== src/Toolbox/Processor/Access.antt =====
-- No feature runs for a command that the limits and the PIN do not let through.
use laitos.Base.{
  ◌≤◌, ◌≡◌, ◌≢◌, refl, Bool, true, false, List, ◌∷◌, Option, none, Bytes, arith, ltb, length,
  Bool-cases, Option-cases, inl, inr,
}
use laitos.Toolbox.Command.{Command}
use laitos.Toolbox.InputFilter.{PinAndShortcuts, TotpMemory, Codes, get_totp, transform_pin}
use laitos.Toolbox.InputFilter.Access.{Granted, transform_pin-Granted}
use laitos.Toolbox.Processor.{
  Processor, CommandFilter, pin_and_shortcuts, transform_command, filter_command, execute, conclude,
  process, max_cmd_length,
}

filter_command-first :
    (codes_of : Bytes → Option Codes) (f : CommandFilter) (fs : List CommandFilter)
    (mem : TotpMemory) (cmd : Command)
    → (filter_command codes_of (f ∷ fs) mem cmd).error ≡ none
    → (transform_command codes_of f mem cmd).error ≡ none
unfolding filter_command
filter_command-first codes_of f fs mem cmd h =
    elim (Option-cases (transform_command codes_of f mem cmd).error) [
      | inl e ↦ e
      | inr (x, e) ↦ absurd (ground (arith, e))
    ]

execute-ran :
    (codes_of : Bytes → Option Codes) (proc : Processor) (mem : TotpMemory) (cmd : Command)
    → (execute codes_of proc mem cmd).2.ran ≢ none
    → (filter_command codes_of proc.command_filters mem cmd).error ≡ none
unfolding execute
execute-ran codes_of proc mem cmd h =
    elim (Option-cases (filter_command codes_of proc.command_filters mem cmd).error) [
      | inl e ↦ e
      | inr (x, e) ↦ absurd (h (rw (e, execute) refl))
    ]

-- What has to hold where a feature runs.
pub record Admitted (codes_of : Bytes → Option Codes) (p : PinAndShortcuts)
    (locked under_limit : Bool) (mem : TotpMemory) (cmd : Command) : Type 0 where
  pub not_locked : locked ≡ false
  pub in_rate : under_limit ≡ true
  pub short : length cmd.content ≤ max_cmd_length
  pub granted : Granted p (get_totp codes_of p) mem cmd (transform_pin codes_of p mem cmd).command

-- Where the first command filter is the one for PIN and shortcuts, a feature runs only outside a
-- lock-down, within the rate limit and the limit on the command's length, and for a command that
-- the filter granted: by a shortcut, the PIN or a valid two-factor code.
pub process-Admitted :
    (codes_of : Bytes → Option Codes) (locked under_limit : Bool) (proc : Processor)
    (mem : TotpMemory) (cmd : Command) (run_filters : Bool) (p : PinAndShortcuts)
    (fs : List CommandFilter)
    → proc.command_filters ≡ pin_and_shortcuts p ∷ fs
    → (process codes_of locked under_limit proc mem cmd run_filters).ran ≢ none
    → Admitted codes_of p locked under_limit mem cmd
unfolding process conclude transform_command
process-Admitted codes_of locked under_limit proc mem cmd run_filters p fs first ran =
    elim (Bool-cases locked) [
      | inl y ↦ absurd (ran (rw y refl))
      | inr n ↦ elim (Bool-cases under_limit) [
        | inr m ↦ absurd (ran (rw (n, m) refl))
        | inl u ↦ elim (Bool-cases (ltb max_cmd_length (length cmd.content))) [
          | inl l ↦ absurd (ran (rw (n, u, l) refl))
          | inr s ↦
              let x : (execute codes_of proc mem cmd).2.ran ≢ none = λ e. ran (rw (n, u, s) e) in
              let passed = rw first at (execute-ran codes_of proc mem cmd x) in
              record {
                not_locked = n;
                in_rate = u;
                short = ground arith;
                granted =
                    transform_pin-Granted codes_of p mem cmd
                      (filter_command-first codes_of (pin_and_shortcuts p) fs mem cmd passed);
              }
        ]
      ]
    ]
