-- ===== src/Sysfile/Tests.antt =====
-- Runs of configure_sysfiles.
use cray_pwrapi.Base.{◌≡◌, refl, List, [], ◌∷◌, map, true, false, some, none, codes, bytes_eq, All}
use cray_pwrapi.Sysfile.Format.{fmtmatch, match_loop, to_percent, same_descriptor, skipspace}
use cray_pwrapi.Sysfile.Directives.{descriptors, fmtmatch-descriptors}
use cray_pwrapi.Sysfile.Line.{
  blank, malformed, setting, parse_line, parse_text, parse_value, parse_path, split_key,
}
use cray_pwrapi.Sysfile.Config.{
  Entry, assign, take_setting, read_lines, read_config, fill_root, configure_sysfiles,
}
use cray_pwrapi.Sysfile.Sound.{name_of}
use cray_pwrapi.Sysfile.Configured.{Directs, Configured, configure_sysfiles-Configured}

abbrev catalog : List Entry
catalog =
    record { key = codes "cpu"; default = codes "/sys/cpu%u/freq"; val = none }
    ∷ record { key = codes "mem"; default = codes "/sys/mem"; val = none }
    ∷ []

line_runs : parse_line (codes "  cpu\t=  /tmp/%u \n") ≡ setting (codes "cpu") (codes "/tmp/%u")
unfolding parse_line parse_text parse_value parse_path split_key skipspace
line_runs = refl

comment_runs : parse_line (codes " # cpu = /x\n") ≡ blank
unfolding parse_line parse_text parse_value parse_path split_key skipspace
comment_runs = refl

no_path_runs : parse_line (codes "cpu = x\n") ≡ malformed
unfolding parse_line parse_text parse_value parse_path split_key skipspace
no_path_runs = refl

-- A path of the file, and the default under the new root for the rest.
config_runs :
    configure_sysfiles
      (λ n. true)
      (λ n. true)
      true
      (some (codes "chroot = /tmp//\n" ∷ codes "cpu = /tmp/cpu%u\n" ∷ []))
      (some catalog)
    ≡ some (
        record {
          key = codes "cpu";
          default = codes "/sys/cpu%u/freq";
          val = some (codes "/tmp/cpu%u");
        }
        ∷ record {
          key = codes "mem";
          default = codes "/sys/mem";
          val = some (codes "/tmp/sys/mem");
        }
        ∷ [])
unfolding configure_sysfiles read_config read_lines take_setting assign fill_root parse_line
    parse_text parse_value parse_path split_key skipspace fmtmatch match_loop to_percent
    same_descriptor
config_runs = refl

-- A directive 'chroot' may bring a descriptor into a path.
root_with_descriptor :
    configure_sysfiles
      (λ n. true)
      (λ n. true)
      true
      (some (codes "chroot = /%s\n" ∷ []))
      (some (record { key = codes "mem"; default = codes "/sys/mem"; val = none } ∷ []))
    ≡ some (
        record { key = codes "mem"; default = codes "/sys/mem"; val = some (codes "/%s/sys/mem") }
        ∷ [])
unfolding configure_sysfiles read_config read_lines take_setting assign fill_root parse_line
    parse_text parse_value parse_path split_key skipspace fmtmatch match_loop to_percent
    same_descriptor
root_with_descriptor = refl

fmtmatch-descriptors_example :
    fmtmatch (codes "/sys/cpu%u/freq") (codes "/tmp/%04u")
    ≡ some (
        bytes_eq
          (descriptors false (codes "/sys/cpu%u/freq"))
          (descriptors false (codes "/tmp/%04u")))
fmtmatch-descriptors_example =
    fmtmatch-descriptors b'/' b'/' (codes "sys/cpu%u/freq") (codes "tmp/%04u")

configure_sysfiles-Configured_example :
    (entries : List Entry) × (configure_sysfiles
        (λ n. true)
        (λ n. true)
        true
        (some (codes "cpu = /tmp/%s\n" ∷ []))
        (some catalog)
      ≡ some entries)
    × All (Configured (Directs (codes "cpu = /tmp/%s\n" ∷ []))) entries
    × (map name_of entries ≡ map name_of catalog)
configure_sysfiles-Configured_example =
    configure_sysfiles-Configured (λ n. true) (λ n. true) (some (codes "cpu = /tmp/%s\n" ∷ []))
      catalog
