-- ===== src/FillDisk/Options.antt =====
-- `fillDiskOpts` of extcontainer/action_fill_disk.go.
pub mod Accepted
use extension_container.Common.{
  String, ◌<>◌, Bool, true, false, Option, none, some, List, [], ◌∷◌, ◌==◌, if◌then◌else◌, Result,
  ok, err, panic, ◌>>=◌, failure,
}
use extension_container.Common.Int.{ℤ}
use extension_container.Common.Dicts.{lookup}
use extension_container.ActionKit.{Request, Values}
use extension_container.FillDisk.{
  Mode, percentage, mb_to_fill, mb_left, Method, over_time, at_once, DiskfillOpts,
}

-- The texts that the library diskfill gives its modes and methods.
pub record Names : Type 0 where
  pub of_mode : Mode → String
  pub of_method : Method → String

-- A configured value is equal to a text where it is a text, and this one.
abbrev pub is_text : Option String → String → Bool
is_text none t = false
is_text (some s) t = s == t

unfoldable pub parse_mode : Names → Option String → String → Result Mode
parse_mode names value shown =
    if is_text value (names.of_mode percentage)
    then ok percentage
    else if is_text value (names.of_mode mb_to_fill)
    then ok mb_to_fill
    else if is_text value (names.of_mode mb_left)
    then ok mb_left
    else err (failure ("invalid mode " <> shown))

unfoldable pub parse_method : Names → Option String → String → Result Method
parse_method names value shown =
    if is_text value (names.of_method over_time)
    then ok over_time
    else if is_text value (names.of_method at_once)
    then ok at_once
    else err (failure ("invalid method " <> shown))

-- A value that Go's assertion `.(float64)` takes, as an int; Go panics on others.
abbrev pub asserted : Option ℤ → Result ℤ
asserted none = panic
asserted (some n) = ok n

module _ (names : Names) (values : Values) where
  unfoldable pub fill_disk_opts : Request values.Value → Result DiskfillOpts
  unfolding parse_mode parse_method lookup
  fill_disk_opts request = do
    block_size ← asserted (values.assert_float_as_int (lookup "blocksize" request.config))
    size ← asserted (values.assert_float_as_int (lookup "size" request.config))
    let mode = lookup "mode" request.config
    mode' ← parse_mode names (values.assert_string mode) (values.format_s mode)
    let method = lookup "method" request.config
    method' ← parse_method names (values.assert_string method) (values.format_s method)
    ok (record {
      temp_path = values.to_string (lookup "path" request.config);
      block_size = block_size;
      size = size;
      mode = mode';
      method = method';
    })
