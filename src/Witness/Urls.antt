-- ===== src/Witness/Urls.antt =====
-- Inputs and URLs.
use scap.Base.{◌≡◌, refl, true, false, none, some, ◌↔◌}
use scap.Base.Bytes.{codes}
use scap.Url.Codecommit.{CodecommitRef, parse_codecommit}
use scap.Url.Codecommit.RoundTrip.{parse_codecommit_iff, IsRef, codecommit_text}
use scap.Url.Normalize.{has_scheme, build_github_repo, trim_repo_path}
use scap.Url.SchemeLaws.{has_scheme_iff, HasScheme}
use scap.Url.Input.Traversal.{from_input-dotted}
use scap.Url.{Aws, GixUrl, Scheme, Parsed}
use scap.Url.Input.{World, from_input, from_url, detect_vcs}
use scap.Url

abbrev plain_ref : CodecommitRef
plain_ref = record { region = none; user = none; name = codes "repo" }

parse_codecommit_iff_example :
    (parse_codecommit (codes "codecommit://repo") ≡ some plain_ref)
    ↔ ((codes "codecommit://repo" ≡ codecommit_text plain_ref) × IsRef plain_ref)
parse_codecommit_iff_example = parse_codecommit_iff (codes "codecommit://repo") plain_ref

abbrev no_world : World
no_world = record {
  gix_parse = λ s. Parsed.failed s;
  lossy = λ s. s;
  aws = record { region = none; default_region = none; lookup = none };
}

from_input-dotted_example :
    from_input no_world (codes "zchee/...git") none false
    ≡ Url.Result.ok (build_github_repo (codes "zchee/...git") (codes "zchee") (codes ".."))
from_input-dotted_example = from_input-dotted no_world (codes "zchee") none false (refl, refl)

abbrev plain_url : GixUrl
plain_url = record {
  scheme = Scheme.other;
  user = none;
  host = some (codes "Host");
  path = codes "/o/n.git";
}

abbrev plain_repo : Url.Repo
plain_repo = record {
  host = codes "host";
  owner = codes "o";
  name = codes "n";
  vcs_hint = none;
  https_url = codes "https://host/o/n";
  ssh_url = codes "ssh://git@host/o/n";
  original_input = codes "https://Host/o/n.git";
}

plain_url-repo :
    from_url (λ s. s) (codes "https://Host/o/n.git") plain_url ≡ Url.Result.ok plain_repo
unfolding from_url detect_vcs trim_repo_path
plain_url-repo = refl

has_scheme_iff_example : (has_scheme (codes "ssh://h") ≡ true) ↔ HasScheme (codes "ssh://h")
has_scheme_iff_example = has_scheme_iff (codes "ssh://h")
