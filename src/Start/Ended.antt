-- ===== src/Start/Ended.antt =====
-- How main.go ends: the close of the channel of the liveness check.
use extension_container.Common.{
  String, Bool, ◌≡◌, ◌≢◌, ◌⊎◌, ◌↔◌, refl, sym, ap, subst, ◌∙◌, Result, ok, err, panic, >>=-ok,
  ok_inj,
}
use extension_container.Common.Int.{ℤ}
use extension_container.Config.{Specification}
use extension_container.Engines.Choice.{Makers, new_client}
use extension_container.Engines.Liveness.{
  Check, register_liveness_check, close_check, liveness_panics,
}
use extension_container.FillDisk.Options.{Names}
use extension_container.Describe.Fill.{MemfillNames}
use extension_container.Start.{Extension, start, end, close_after}

close_after-panics :
    (r : Result (Unit {0})) (check : Check) → r ≢ panic → close_after r check ≡ close_check check
unfolding close_after
close_after-panics (ok u) check h = refl
close_after-panics (err e) check h = refl
close_after-panics panic check h = absurd (h refl)

-- The channel that the extension holds is the one that was registered.
registered :
    (new : Makers) (exists : String → Bool) (parse_duration : String → Result ℤ)
    (mem : MemfillNames) (disk : Names) (cfg : Specification) (oci_root : String)
    {extension : Extension}
    → start new exists parse_duration mem disk cfg oci_root ≡ ok extension
    → register_liveness_check parse_duration cfg ≡ ok extension.stop_check
unfolding start
registered new exists parse_duration mem disk cfg oci_root h =
    let (client, _, rest) = >>=-ok (new_client new exists cfg) _ h in
    let (check, e, built) = >>=-ok (register_liveness_check parse_duration cfg) _ rest in
    e ∙ ap (λ (x : Extension). ok x.stop_check) (ok_inj built)

-- The end of an extension that has been started panics exactly where the settings disable the liveness
-- check, by an empty interval or "0". The close of the engine's client does not panic.
pub end_panics :
    (new : Makers) (exists : String → Bool) (parse_duration : String → Result ℤ)
    (mem : MemfillNames) (disk : Names) (cfg : Specification) (oci_root : String)
    {extension : Extension}
    → start new exists parse_duration mem disk cfg oci_root ≡ ok extension
    → extension.client.close ≢ panic
    → (end extension ≡ panic)
      ↔ ((cfg.liveness_check_interval ≡ "") ⊎ (cfg.liveness_check_interval ≡ "0"))
unfolding end
end_panics new exists parse_duration mem disk cfg oci_root {extension} h closes =
    subst
      (λ (r : Result (Unit {0})).
        (r ≡ panic) ↔ ((cfg.liveness_check_interval ≡ "") ⊎ (cfg.liveness_check_interval ≡ "0")))
      (sym (close_after-panics extension.client.close extension.stop_check closes))
      (liveness_panics parse_duration cfg
        (registered new exists parse_duration mem disk cfg oci_root h))
