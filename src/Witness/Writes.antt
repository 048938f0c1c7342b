-- ===== src/Witness/Writes.antt =====
-- Two processes that write one index.
use scap.Base.{ℕ, none, refl, arith, if◌then◌else◌, ◌==◌}
use scap.Base.Bytes.{Bytes, codes}
use scap.Index.Write.{
  outside, Directory, create_dir, write_some, write_all, rename, Steps, done, more,
}
use scap.Index.Write.Whole.{IsWhole, Steps-IsWhole}

abbrev writes : ℕ → Bytes
writes pid = if pid == 1 then codes "one" else codes "two"

abbrev empty_dir : Directory
empty_dir = record { files = λ n. none; at = λ pid. outside }

-- The second is half through when the first puts its file in place.
one_of_two : (d : Directory) × Steps (codes "i") writes empty_dir d
one_of_two =
    let a = more done (create_dir 1 refl) in
    let b = more a (create_dir 2 refl) in
    let c = more b (write_all 1 (omega arith) refl) in
    let d = more c (write_some 2 (codes "t") (omega arith) refl) in
    (_, more d (rename 1 (omega arith) refl))

Steps-IsWhole_example : IsWhole (codes "i") writes none (one_of_two.0.files (codes "i"))
Steps-IsWhole_example = Steps-IsWhole (codes "i") writes (λ pid. refl) one_of_two.1
