-- ===== src/Processes/Endings.antt =====
-- Which ends of a process are errors: the readings in extcontainer/action_stress.go,
-- action_fill_mem.go and action_fill_disk.go.
use extension_container.Common.{
  String, Bool, true, false, Option, none, some, List, [], ◌∷◌, ◌≡◌, refl, sym, arith, ◌↔◌, inl,
  inr, Bool-cases,
}
use mathlib.Core.List.{Memᴰ}
use mathlib.Core.List.Memᴰ.{head, tail}
use extension_container.Common.Int.{ℤ, pos, eqb_ℤ, eqb_ℤ_iff, contains}
use extension_container.Processes.{
  ProcessError, exit_error, other_error, ExitError, by_signal, failed_status, ignored_codes,
}

-- The failures that are no error of the attack: the process was ended by a signal and its target is
-- gone, or its exit code is one that is ignored.
pub data Excused (target_gone : Bool) (ignored : List ℤ) : ProcessError → Type 0 where
  target_stopped :
      {text : String} {e : ExitError}
      → e.exit_code ≡ by_signal
      → target_gone ≡ true
      → Excused target_gone ignored (exit_error text e)
  ignored_code :
      {text : String} {e : ExitError}
      → Memᴰ e.exit_code ignored
      → Excused target_gone ignored (exit_error text e)

pub Mem-contains : {n : ℤ} {ns : List ℤ} → Memᴰ n ns → contains ns n ≡ true
unfolding contains
Mem-contains {n} (head {x} e) = ground (arith, e, eqb_ℤ_iff x n)
Mem-contains (tail h) = ground (arith, Mem-contains h)

contains-Mem : (n : ℤ) (ns : List ℤ) → contains ns n ≡ true → Memᴰ n ns
unfolding contains
contains-Mem n [] h = absurd (cc h)
contains-Mem n (m ∷ ns) h = elim (Bool-cases (eqb_ℤ m n)) [
  | inl same ↦ head (sym ((eqb_ℤ_iff m n).0 same))
  | inr differs ↦ tail (contains-Mem n ns (rw (← h, differs) refl))
]

module _ (name title : String) (gone : Bool) (ignored : List ℤ) where
  excuse :
      (p : ProcessError)
      → (failed_status name title gone ignored p).error ≡ none
      → Excused gone ignored p
  unfolding failed_status
  excuse (other_error text) h = absurd (cc h)
  excuse (exit_error text e) h = elim (Bool-cases (contains ignored e.exit_code)) [
    | inl found ↦ ignored_code (contains-Mem e.exit_code ignored found)
    | inr missing ↦ elim (Bool-cases (eqb_ℤ e.exit_code by_signal)) [
      | inl signal ↦ elim (Bool-cases gone) [
        | inl stopped ↦ target_stopped ((eqb_ℤ_iff e.exit_code by_signal).0 signal) stopped
        | inr there ↦ absurd (ground (arith, missing, signal, there, h))
      ]
      | inr other ↦ absurd (ground (arith, missing, other, h))
    ]
  ]

  excused :
      {p : ProcessError}
      → Excused gone ignored p
      → (failed_status name title gone ignored p).error ≡ none
  unfolding failed_status
  excused (target_stopped {text} {e} signal stopped) =
      rw ((eqb_ℤ_iff e.exit_code by_signal).1 signal, stopped) refl
  excused (ignored_code h) = ground (arith, Mem-contains h)

  -- A process that failed ends the attack, with an error exactly where the failure is not excused.
  pub failed_status-Excused :
      (p : ProcessError)
      → ((failed_status name title gone ignored p).completed ≡ true)
        × (((failed_status name title gone ignored p).error ≡ none) ↔ Excused gone ignored p)
  unfolding failed_status
  failed_status-Excused (other_error text) = (refl, (excuse (other_error text), excused))
  failed_status-Excused (exit_error text e) = (ground arith, (excuse (exit_error text e), excused))

-- The process has no failure, or an excused one.
pub data NoFault (gone : Bool) (ignored : List ℤ) : Option ProcessError → Type 0 where
  no_failure : NoFault gone ignored none
  excused_failure : {e : ProcessError} → Excused gone ignored e → NoFault gone ignored (some e)

failure_of :
    {gone : Bool} {ignored : List ℤ} {e : ProcessError}
    → NoFault gone ignored (some e)
    → Excused gone ignored e
failure_of (excused_failure h) = h

pub NoFault-some :
    (name title : String) (gone : Bool) (ignored : List ℤ) (e : ProcessError)
    → ((failed_status name title gone ignored e).error ≡ none) ↔ NoFault gone ignored (some e)
NoFault-some name title gone ignored e =
    let (_, decided) = failed_status-Excused name title gone ignored e in
    ((λ h. excused_failure (decided.0 h)), (λ h. decided.1 (failure_of h)))

-- Whether an OOM kill, exit code 137, is excused by the option `failOnOomKill`.
pub Excused-oom :
    (fail_on_oom_kill gone : Bool) (text : String) (e : ExitError)
    → e.exit_code ≡ pos 137
    → Excused gone (ignored_codes fail_on_oom_kill []) (exit_error text e)
      ↔ (fail_on_oom_kill ≡ false)
Excused-oom fail gone text e code = (forth fail, back fail)
  where
    forth : (fail : Bool) → Excused gone (ignored_codes fail []) (exit_error text e) → fail ≡ false
    forth true (target_stopped signal _) = absurd (cc (signal, code))
    forth true (ignored_code h) = elim h [ ]
    forth false h = refl

    back : (fail : Bool) → fail ≡ false → Excused gone (ignored_codes fail []) (exit_error text e)
    back true h = absurd (cc h)
    back false h = ignored_code (head code)
