-- ===== src/Witness/Removals.antt =====
-- A removal that the user confirms.
use scap.Base.{true, false, none, some, [], ◌∷◌, ◌++◌, ◌≡◌, refl}
use scap.Base.Bytes.{codes}
use scap.Config
use scap.RepoPath.{dest_path, rel_path}
use scap.Url
use scap.Create.{Place, CreateArgs, create}
use scap.Create.Done.{IsDone, create-IsDone}
use scap.Remove.{RmArgs, World, ReadDir, rm, is_not_exist_or_empty, confirm}
use scap.Remove.Asked.{Removes, rm-Removes}

abbrev repo : Url.Repo
repo = record {
  host = codes "h";
  owner = codes "o";
  name = codes "n";
  vcs_hint = none;
  https_url = codes "https://h/o/n";
  ssh_url = codes "ssh://git@h/o/n";
  original_input = codes "h/o/n";
}

abbrev confirming : World
confirming = record {
  from_input = λ target. Url.Result.ok repo;
  root_for_url = λ url. Config.Result.ok (codes "/r");
  read_dir = λ path. ReadDir.entries true;
  response = some (codes "y" ++ (10 ∷ []));
  remove_dir_all = λ path. true;
}

abbrev rm_args : RmArgs
rm_args = record { target = codes "h/o/n"; bare = false; dry_run = false }

rm-Removes_example : Removes confirming rm_args (rm confirming rm_args).1
rm-Removes_example = rm-Removes confirming rm_args

-- It removes the directory.
one_tree : (rm confirming rm_args).1 ≡ codes "/r/h/o/n" ∷ []
unfolding rm dest_path rel_path is_not_exist_or_empty confirm
one_tree = refl

-- A new repository where there is none yet.
abbrev empty_place : Place
empty_place = record {
  user = Config.Result.ok none;
  complete_user = Config.Result.ok true;
  from_input = λ target user complete_user. Url.Result.ok repo;
  root_for_url = λ url. Config.Result.ok (codes "/r");
  read_dir = λ path. ReadDir.not_found;
  can_create = λ path. true;
  git_status = λ dir args. some true;
}

abbrev create_args : CreateArgs
create_args = record { target = codes "h/o/n"; vcs = some (codes "git"); bare = true }

create-IsDone_example : IsDone empty_place create_args (create empty_place create_args).1
create-IsDone_example = create-IsDone empty_place create_args
