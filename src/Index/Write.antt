-- ===== src/Index/Write.antt =====
-- src/index.rs: the write of an index, a call at a time, by any number of processes at once, and the
-- clock. Each process goes through `write_atomically`; what a call comes to is left open.
pub mod Whole
use scap.Base.{
  ℕ, zero, suc, ◌-◌, ◌<◌, ◌^◌, Bool, true, false, Option, none, some, List, [], ◌∷◌, ◌++◌, ◌≡◌, ◌≢◌,
  refl, sym, ap, ◌∙◌, if◌then◌else◌, ltb, ◌==◌, inl, inr, ◌⊎◌, Bool-cases, ==_iff, arith, length,
  drop, drop-length-append, length-append,
}
use scap.Base.Bytes.{Bytes, codes, bytes_eq, bytes_eq→≡, bytes_eq_refl}
use scap.Base.Decimal.{decimal, decimal_inj}
use scap.Base.Int.{ℤ, pos, negsuc, IsI64}

-- The time since the epoch, or before it.
unfoldable pub now_ns : ℕ ⊎ ℕ → ℤ
now_ns (inl since) = if ltb since (2 ^ 63) then pos since else pos (2 ^ 63 - 1)
now_ns (inr zero) = pos 0
now_ns (inr (suc before)) = if ltb (suc before) (2 ^ 63) then negsuc before else negsuc (2 ^ 63 - 1)

pub now_ns-IsI64 : (t : ℕ ⊎ ℕ) → IsI64 (now_ns t)
unfolding now_ns
now_ns-IsI64 (inl since) = ground arith
now_ns-IsI64 (inr zero) = omega arith
now_ns-IsI64 (inr (suc before)) = ground arith

-- The name of the temporary file of a process, next to the index file.
unfoldable pub tmp_name : Bytes → ℕ → Bytes
tmp_name name pid = name ++ (codes "." ++ (decimal pid ++ codes ".tmp"))

-- Where a process stands in `write_atomically`.
pub data At : Type 0 where
  outside writing written failing gone : At

-- The files of the directory, and the processes.
pub record Directory : Type 0 where
  pub files : Bytes → Option Bytes
  pub at : ℕ → At

abbrev pub put : (Bytes → Option Bytes) → Bytes → Option Bytes → Bytes → Option Bytes
put files name content n = if bytes_eq name n then content else files n

abbrev pub moved : (ℕ → At) → ℕ → At → ℕ → At
moved at i a j = if i == j then a else at j

module _ (name : Bytes) (bytes : ℕ → Bytes) where
  -- A step of process `pid`, which writes `bytes pid`.
  pub data Step (d : Directory) : Directory → Type 0 where
    create_dir : (pid : ℕ) → d.at pid ≡ outside → Step d (record d { at = moved d.at pid writing })
    no_dir : (pid : ℕ) → d.at pid ≡ outside → Step d (record d { at = moved d.at pid gone })
    write_some :
        (pid : ℕ) (part : Bytes)
        → pid < 2 ^ 32
        → d.at pid ≡ writing
        → Step d (record d { files = put d.files (tmp_name name pid) (some part) })
    write_all :
        (pid : ℕ)
        → pid < 2 ^ 32
        → d.at pid ≡ writing
        → Step d (record {
          files = put d.files (tmp_name name pid) (some (bytes pid));
          at = moved d.at pid written;
        })
    write_failed :
        (pid : ℕ) → d.at pid ≡ writing → Step d (record d { at = moved d.at pid failing })
    rename :
        (pid : ℕ)
        → pid < 2 ^ 32
        → d.at pid ≡ written
        → Step d (record {
          files = put (put d.files name (d.files (tmp_name name pid))) (tmp_name name pid) none;
          at = moved d.at pid gone;
        })
    rename_failed :
        (pid : ℕ) → d.at pid ≡ written → Step d (record d { at = moved d.at pid failing })
    remove_file :
        (pid : ℕ)
        → pid < 2 ^ 32
        → d.at pid ≡ failing
        → Step d (record { files = put d.files (tmp_name name pid) none; at = moved d.at pid gone })
    left_behind : (pid : ℕ) → d.at pid ≡ failing → Step d (record d { at = moved d.at pid gone })

  pub data Steps : Directory → Directory → Type 0 where
    done : {d : Directory} → Steps d d
    more : {c d e : Directory} → Steps c d → Step d e → Steps c e
