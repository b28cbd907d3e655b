-- ===== src/Examples/Options.antt =====
-- Runs of the readers of the options of fill disk and of the DNS error injection.
use extension_container.Common.{String, some, [], ◌∷◌, map, ◌≡◌, ◌≢◌, refl, ok}
use extension_container.Common.Int.{pos}
use extension_container.Common.Dicts.{Dict, lookup}
use extension_container.ActionKit.{Request}
use extension_container.FillDisk.{
  Mode, percentage, mb_to_fill, mb_left, Method, over_time, at_once, DiskfillOpts,
}
use extension_container.FillDisk.Options.{Names, asserted, fill_disk_opts}
use extension_container.FillDisk.Options.Accepted.{fill_disk_opts-names}
use extension_container.DnsInjection.Options.{
  InjectOpts, nxdomain, timeout, parse_dns_inject_opts, port_range_of,
}
use extension_container.DnsInjection.Options.Parsed.{name, parse_dns_inject_opts-names}
use extension_container.Examples.Data.{Given, number, text, texts, values, request_of}
use extension_container.Examples.Requests.{lib}

abbrev mode_name : Mode → String
mode_name percentage = "PERCENTAGE"
mode_name mb_to_fill = "MB_TO_FILL"
mode_name mb_left = "MB_LEFT"

abbrev method_name : Method → String
method_name over_time = "OVER_TIME"
method_name at_once = "AT_ONCE"

abbrev names : Names
names = record { of_mode = mode_name; of_method = method_name }

abbrev fill_request : Request Given
fill_request = request_of (
    ("mode", text "MB_LEFT")
    ∷ ("method", text "AT_ONCE")
    ∷ ("size", number (pos 500))
    ∷ ("blocksize", number (pos 5))
    ∷ ("path", text "/tmp")
    ∷ [])

abbrev fill_opts : DiskfillOpts
fill_opts = record {
  temp_path = "/tmp";
  block_size = pos 5;
  size = pos 500;
  mode = mb_left;
  method = at_once;
}

filled : fill_disk_opts names values fill_request ≡ ok fill_opts
unfolding fill_disk_opts
filled = refl

fill_disk_opts-names_example :
    (values.assert_string (lookup "mode" fill_request.config) ≡ some (names.of_mode mb_left))
    × (values.assert_string (lookup "method" fill_request.config) ≡ some (names.of_method at_once))
    × (asserted (values.assert_float_as_int (lookup "size" fill_request.config)) ≡ ok (pos 500))
    × (asserted (values.assert_float_as_int (lookup "blocksize" fill_request.config)) ≡ ok (pos 5))
    × (values.to_string (lookup "path" fill_request.config) ≡ "/tmp")
fill_disk_opts-names_example = fill_disk_opts-names names values fill_request filled

abbrev dns_config : Dict Given
dns_config = ("dnsErrorType", texts ("NXDOMAIN" ∷ "TIMEOUT" ∷ [])) ∷ []

abbrev dns_opts : InjectOpts String
dns_opts = record {
  error_types = nxdomain ∷ timeout ∷ [];
  cidrs = [];
  port_range = record { from = 53; to = 53 };
  hostnames = [];
}

injected : parse_dns_inject_opts lib values dns_config ≡ ok dns_opts
unfolding parse_dns_inject_opts
injected = refl

parse_dns_inject_opts-names_example :
    (map name (nxdomain ∷ timeout ∷ []) ≡ values.to_string_array (lookup "dnsErrorType" dns_config))
    × (dns_opts.error_types ≢ [])
    × (port_range_of lib (values.to_string (lookup "port" dns_config)) ≡ ok dns_opts.port_range)
parse_dns_inject_opts-names_example = parse_dns_inject_opts-names lib values dns_config injected
