-- ===== src/FillDisk/Options/Accepted.antt =====
-- What `fillDiskOpts` of extcontainer/action_fill_disk.go accepts.
use extension_container.Common.{
  String, true, Option, none, some, eq_iff, ◌≡◌, ap, ◌∙◌, arith, Bool-cases, inl, inr,
  if◌then◌else◌, Result, ok, >>=-ok, ok_inj,
}
use extension_container.Common.Dicts.{lookup}
use extension_container.ActionKit.{Request, Values}
use extension_container.FillDisk.{
  Mode, percentage, mb_to_fill, mb_left, Method, over_time, at_once, DiskfillOpts,
}
use extension_container.FillDisk.Options.{
  Names, is_text, parse_mode, parse_method, asserted, fill_disk_opts,
}

is_text-eq : (v : Option String) (t : String) → is_text v t ≡ true → v ≡ some t
is_text-eq none t h = absurd (cc h)
is_text-eq (some s) t h = ap some ((eq_iff s t).0 h)

-- One case of a switch on a configured value.
switched :
    {A : Type 0} (of : A → String) (v : Option String) (a : A) (rest : Result A) {b : A}
    → (rest ≡ ok b → v ≡ some (of b))
    → (if is_text v (of a) then ok a else rest) ≡ ok b
    → v ≡ some (of b)
switched of v a rest {b} other h = elim (Bool-cases (is_text v (of a))) [
  | inl e ↦
      let same : a ≡ b = ok_inj (ground (arith, h, e)) in
      is_text-eq v (of a) e ∙ ap (λ c. some (of c)) same
  | inr ne ↦ other (ground (arith, h, ne))
]

parse_mode-name :
    (names : Names) (v : Option String) (shown : String) {m : Mode}
    → parse_mode names v shown ≡ ok m
    → v ≡ some (names.of_mode m)
unfolding parse_mode
parse_mode-name names v shown h =
    switched names.of_mode v percentage _
      (λ h1.
        switched names.of_mode v mb_to_fill _
          (λ h2. switched names.of_mode v mb_left _ (λ h3. absurd (cc h3)) h2) h1)
      h

parse_method-name :
    (names : Names) (v : Option String) (shown : String) {m : Method}
    → parse_method names v shown ≡ ok m
    → v ≡ some (names.of_method m)
unfolding parse_method
parse_method-name names v shown h =
    switched names.of_method v over_time _
      (λ h1. switched names.of_method v at_once _ (λ h2. absurd (cc h2)) h1) h

-- Options that are accepted have the mode and the method whose names are configured, the configured
-- numbers, and the configured path.
pub fill_disk_opts-names :
    (names : Names) (values : Values) (request : Request values.Value) {o : DiskfillOpts}
    → fill_disk_opts names values request ≡ ok o
    → (values.assert_string (lookup "mode" request.config) ≡ some (names.of_mode o.mode))
      × (values.assert_string (lookup "method" request.config) ≡ some (names.of_method o.method))
      × (asserted (values.assert_float_as_int (lookup "size" request.config)) ≡ ok o.size)
      × (asserted (values.assert_float_as_int (lookup "blocksize" request.config))
          ≡ ok o.block_size)
      × (values.to_string (lookup "path" request.config) ≡ o.temp_path)
unfolding fill_disk_opts
fill_disk_opts-names names values request {o} h =
    let mode = lookup "mode" request.config in
    let method = lookup "method" request.config in
    let (b, eb, h1) =
      >>=-ok (asserted (values.assert_float_as_int (lookup "blocksize" request.config))) _ h in
    let (s, es, h2) =
      >>=-ok (asserted (values.assert_float_as_int (lookup "size" request.config))) _ h1 in
    let (m, em, h3) =
      >>=-ok (parse_mode names (values.assert_string mode) (values.format_s mode)) _ h2 in
    let (d, ed, h4) =
      >>=-ok (parse_method names (values.assert_string method) (values.format_s method)) _ h3 in
    let e = ok_inj h4 in
    (
      parse_mode-name names _ _ em ∙ ap (λ (x : DiskfillOpts). some (names.of_mode x.mode)) e,
      parse_method-name names _ _ ed ∙ ap (λ (x : DiskfillOpts). some (names.of_method x.method)) e,
      es ∙ ap (λ (x : DiskfillOpts). ok x.size) e,
      eb ∙ ap (λ (x : DiskfillOpts). ok x.block_size) e,
      ap (λ (x : DiskfillOpts). x.temp_path) e,
    )
