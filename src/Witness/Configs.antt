-- ===== src/Witness/Configs.antt =====
-- Configuration and roots.
use scap.Base.{ℕ, ◌≡◌, refl, true, false, none, some, List, [], ◌∷◌}
use scap.Base.Int.{pos}
use scap.Base.Bytes.{Bytes, codes}
use scap.Config
use scap.Config.{Env, ConfigSnapshot, ok, err}
use scap.Config.Triggers.{Loader, load, or_git, needs_git_backend, load-needs_git_backend}
use scap.Config.Roots.{clean_path, resolve_roots, dedup, env_roots}
use scap.Config.Roots.Clean.{clean_path_lem, render, surviving}
use scap.Config.Roots.Unique.{resolve_roots-AllNew, AllNew}
use scap.Config.Roots.Memo.{
  Git, UrlmatchMemo, urlmatch, urlmatch_spawn, read_output, lookups, urlmatch-stable,
}

clean_path_lem_example : clean_path (codes "/a/./b/..//c") ≡ codes "/a/c"
unfolding render surviving
clean_path_lem_example = clean_path_lem (codes "/a/./b/..//c")

-- A `git` that answers `/w`, one that is gone, and a memo with no cell.
abbrev answering : Git
answering = record {
  program = some (codes "git");
  run = λ program url. some (record { code = some (pos 0); stdout = codes "/w" });
  is_utf8 = λ s. true;
  trim = λ s. s;
}

abbrev missing : Git
missing = record { program = none; run = λ program url. none; is_utf8 = λ s. true; trim = λ s. s }

abbrev no_cells : UrlmatchMemo
no_cells = record { cells = []; spawns = 0 }

abbrev between : List (Git × Bytes)
between = (missing, codes "u") ∷ (answering, codes "v") ∷ []

answered : (urlmatch answering no_cells (codes "u")).0 ≡ ok (some (codes "/w"))
unfolding urlmatch urlmatch_spawn read_output
answered = refl

urlmatch-stable_example :
    ((urlmatch missing (lookups (urlmatch answering no_cells (codes "u")).1 between) (codes "u")).0
      ≡ ok (some (codes "/w")))
    × ((urlmatch missing
          (lookups (urlmatch answering no_cells (codes "u")).1 between)
          (codes "u")).1.spawns
        ≡ (lookups (urlmatch answering no_cells (codes "u")).1 between).spawns)
urlmatch-stable_example = urlmatch-stable answering missing no_cells (codes "u") between answered

abbrev plain_env : Env
plain_env = record {
  home = some (codes "/h");
  git_config_count = none;
  git_config_parameters = none;
  scap_root = none;
  scap_list_exclude = none;
  scap_list_cache = none;
  scap_config_backend = none;
  xdg_config_home = none;
  git_config_global = none;
  git_config_system = none;
  git_config_nosystem = none;
  git_dir = none;
  git_ceiling_directories = none;
  cwd = none;
  path = some (codes "/bin:/usr/bin");
  system_probe_candidates = [];
}

abbrev plain_snapshot : ConfigSnapshot
plain_snapshot = record {
  env = plain_env;
  roots = codes "/a" ∷ codes "/b/" ∷ codes "/a/." ∷ [];
  url_scoped_roots = codes "/c" ∷ [];
  user = none;
  complete_user = false;
  list_exclude = [];
  list_cache = false;
  backend = Config.Backend.in_process;
  reason = Config.Reason.plain;
}

three_roots :
    resolve_roots (λ p. none) plain_snapshot true ≡ ok (codes "/a" ∷ codes "/b" ∷ codes "/c" ∷ [])
unfolding resolve_roots env_roots dedup clean_path
three_roots = refl

resolve_roots-AllNew_example : AllNew [] (codes "/a" ∷ codes "/b" ∷ codes "/c" ∷ [])
resolve_roots-AllNew_example = resolve_roots-AllNew (λ p. none) plain_snapshot true three_roots

-- Sources that parse to no file, and a snapshot that does not depend on them.
abbrev plain_loader : Loader
plain_loader = record {
  SourceList = ℕ;
  enumerate = λ env. 1;
  system_probe_matches = λ list. list;
  parse = λ list env. ok none;
  from_file = λ file env. plain_snapshot;
  git_load = λ env reason. err Config.ConfigError.git_required;
}

load-needs_git_backend_example :
    load plain_loader plain_env
    ≡ or_git plain_loader plain_env (needs_git_backend plain_env 1 false) (ok plain_snapshot)
load-needs_git_backend_example = load-needs_git_backend plain_loader plain_env none refl
