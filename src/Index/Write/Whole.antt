-- ===== src/Index/Write/Whole.antt =====
-- No reader finds a blend: the index file is the earlier one, or all that one process wrote.
use scap.Base.{
  append_cancel, ℕ, ◌<◌, ◌^◌, true, false, Option, none, some, ◌++◌, ◌≡◌, ◌≢◌, refl, sym, ap, ◌∙◌,
  inl, inr, ◌⊎◌, Bool-cases, ==_iff, arith, length, length-append, take, take-length-append, ◌==◌,
}
use scap.Base.Bytes.{Bytes, codes, bytes_eq, bytes_eq→≡, bytes_eq_refl}
use scap.Base.Decimal.{decimal, decimal_inj}
use scap.Index.Write.{
  tmp_name, At, outside, writing, written, failing, gone, Directory, put, moved, Step, create_dir,
  no_dir, write_some, write_all, write_failed, rename, rename_failed, remove_file, left_behind,
  Steps, done, more,
}

tmp_name-ne : (name : Bytes) (pid : ℕ) → tmp_name name pid ≢ name
unfolding tmp_name
tmp_name-ne name pid h =
    absurd
      (omega (arith, ap length h, length-append name (codes "." ++ (decimal pid ++ codes ".tmp"))))

append_cancel_right : (xs ys zs : Bytes) → xs ++ zs ≡ ys ++ zs → xs ≡ ys
append_cancel_right xs ys zs h =
    let same : length xs ≡ length ys =
      omega (arith, ap length h, length-append xs zs, length-append ys zs) in
    sym (take-length-append xs zs)
    ∙ ap (take (length xs)) h
    ∙ ap (λ n. take n (ys ++ zs)) same
    ∙ take-length-append ys zs

tmp_name_inj :
    (name : Bytes) (i j : ℕ) → i < 2 ^ 32 → j < 2 ^ 32 → tmp_name name i ≡ tmp_name name j → i ≡ j
unfolding tmp_name
tmp_name_inj name i j hi hj h = decimal_inj i j hi hj (
    append_cancel_right (decimal i) (decimal j) (codes ".tmp")
      (append_cancel (codes ".") _ _ (append_cancel name _ _ h)))

put-same : (files : Bytes → Option Bytes) (n : Bytes) (c : Option Bytes) → put files n c n ≡ c
put-same files n c = rw (bytes_eq_refl n) refl

put-other :
    (files : Bytes → Option Bytes) (n : Bytes) (c : Option Bytes) (m : Bytes)
    → n ≢ m
    → put files n c m ≡ files m
put-other files n c m h = elim (Bool-cases (bytes_eq n m)) [
  | inl e ↦ absurd (h (bytes_eq→≡ n m e))
  | inr e ↦ rw e refl
]

clash : false ≡ true → ⊥
clash h = cc

moved-cases :
    (at : ℕ → At) (i : ℕ) (a : At) (j : ℕ) {b : At}
    → moved at i a j ≡ b
    → ((i ≡ j) × (a ≡ b)) ⊎ ((i ≢ j) × (at j ≡ b))
moved-cases at i a j h = elim (Bool-cases (i == j)) [
  | inl e ↦ inl ((==_iff i j).0 e, rw e at h)
  | inr e ↦ inr (λ q. clash (sym e ∙ (==_iff i j).1 q), rw e at h)
]

not-gone : gone ≡ written → ⊥
not-gone h = cc

not-yet : outside ≡ written → ⊥
not-yet h = cc

module _ (name : Bytes) (bytes : ℕ → Bytes) (earlier : Option Bytes) where
  -- The content that the earlier file had, or that one process writes.
  abbrev pub IsWhole : Option Bytes → Type 0
  IsWhole content = (content ≡ earlier) ⊎ ((pid : ℕ) × (content ≡ some (bytes pid)))

  -- A process that has written all has its bytes in its own file.
  Complete : (Bytes → Option Bytes) → (ℕ → At) → Type 0
  Complete files at =
      (pid : ℕ) → pid < 2 ^ 32 → at pid ≡ written → files (tmp_name name pid) ≡ some (bytes pid)

  record Inv (d : Directory) : Type 0 where
    whole : IsWhole (d.files name)
    complete : Complete d.files d.at

  -- A process that moves to a place other than `written`.
  Complete-moved :
      (files : Bytes → Option Bytes) (at : ℕ → At) (i : ℕ) (a : At)
      → a ≢ written
      → Complete files at
      → Complete files (moved at i a)
  unfolding Complete
  Complete-moved files at i a ne c j small h = elim (moved-cases at i a j h) [
    | inl (e, w) ↦ absurd (ne w)
    | inr (apart, w) ↦ c j small w
  ]

  -- A change of the file of a process that has not written all.
  Complete-put :
      (files : Bytes → Option Bytes) (at : ℕ → At) (i : ℕ) (content : Option Bytes)
      → i < 2 ^ 32
      → at i ≢ written
      → Complete files at
      → Complete (put files (tmp_name name i) content) at
  unfolding Complete
  Complete-put files at i content hi ne c j small h =
      put-other files (tmp_name name i) content (tmp_name name j)
        (λ e. ne (ap at (tmp_name_inj name i j hi small e) ∙ h))
      ∙ c j small h

  Inv-moved :
      (d : Directory) (i : ℕ) (a : At)
      → a ≢ written
      → Inv d
      → Inv (record d { at = moved d.at i a })
  Inv-moved d i a ne inv = record {
    whole = inv.whole;
    complete = Complete-moved d.files d.at i a ne inv.complete;
  }

  IsWhole-put :
      (files : Bytes → Option Bytes) (i : ℕ) (content : Option Bytes)
      → IsWhole (files name)
      → IsWhole (put files (tmp_name name i) content name)
  IsWhole-put files i content w =
      rw (put-other files (tmp_name name i) content name (tmp_name-ne name i)) w

  Complete-write_all :
      (d : Directory) (pid : ℕ)
      → pid < 2 ^ 32
      → d.at pid ≡ writing
      → Complete d.files d.at
      → Complete (put d.files (tmp_name name pid) (some (bytes pid))) (moved d.at pid written)
  unfolding Complete
  Complete-write_all d pid small h c j smallj w = elim (moved-cases d.at pid written j w) [
    | inl (e, same) ↦ rw (sym e) (put-same d.files (tmp_name name pid) (some (bytes pid)))
    | inr (apart, old) ↦
        put-other d.files (tmp_name name pid) (some (bytes pid)) (tmp_name name j)
          (λ e. apart (tmp_name_inj name pid j small smallj e))
        ∙ c j smallj old
  ]

  Complete-rename :
      (d : Directory) (pid : ℕ)
      → pid < 2 ^ 32
      → Complete d.files d.at
      → Complete
          (put (put d.files name (d.files (tmp_name name pid))) (tmp_name name pid) none)
          (moved d.at pid gone)
  unfolding Complete
  Complete-rename d pid small c j smallj w = elim (moved-cases d.at pid gone j w) [
    | inl (e, same) ↦ absurd (not-gone same)
    | inr (apart, old) ↦
        put-other (put d.files name (d.files (tmp_name name pid))) (tmp_name name pid) none
          (tmp_name name j) (λ e. apart (tmp_name_inj name pid j small smallj e))
        ∙ put-other d.files name (d.files (tmp_name name pid)) (tmp_name name j)
            (λ e. tmp_name-ne name j (sym e))
        ∙ c j smallj old
  ]

  Step-Inv : {d e : Directory} → Step name bytes d e → Inv d → Inv e
  unfolding Complete
  Step-Inv {d} (create_dir pid h) inv = Inv-moved d pid writing (λ e. cc) inv
  Step-Inv {d} (no_dir pid h) inv = Inv-moved d pid gone (λ e. cc) inv
  Step-Inv {d} (write_failed pid h) inv = Inv-moved d pid failing (λ e. cc) inv
  Step-Inv {d} (rename_failed pid h) inv = Inv-moved d pid failing (λ e. cc) inv
  Step-Inv {d} (left_behind pid h) inv = Inv-moved d pid gone (λ e. cc) inv
  Step-Inv {d} (write_some pid part small h) inv = record {
    whole = IsWhole-put d.files pid (some part) inv.whole;
    complete = Complete-put d.files d.at pid (some part) small (λ e. cc) inv.complete;
  }
  Step-Inv {d} (remove_file pid small h) inv = record {
    whole = IsWhole-put d.files pid none inv.whole;
    complete =
        Complete-moved (put d.files (tmp_name name pid) none) d.at pid gone (λ e. cc)
          (Complete-put d.files d.at pid none small (λ e. cc) inv.complete);
  }
  Step-Inv {d} (write_all pid small h) inv = record {
    whole = IsWhole-put d.files pid (some (bytes pid)) inv.whole;
    complete = Complete-write_all d pid small h inv.complete;
  }
  Step-Inv {d} (rename pid small h) inv = record {
    whole = inr (
      pid,
      put-other (put d.files name (d.files (tmp_name name pid))) (tmp_name name pid) none name
            (tmp_name-ne name pid)
          ∙ put-same d.files name (d.files (tmp_name name pid))
          ∙ inv.complete pid small h,
    );
    complete = Complete-rename d pid small inv.complete;
  }

  Steps-Inv : {c d : Directory} → Steps name bytes c d → Inv c → Inv d
  Steps-Inv done inv = inv
  Steps-Inv (more s t) inv = Step-Inv t (Steps-Inv s inv)

-- Whatever the order of the steps of any number of processes, and whichever of their calls fail, the
-- index file is the one that was there before, or holds all that one of them wrote.
pub Steps-IsWhole :
    (name : Bytes) (bytes : ℕ → Bytes) {c d : Directory}
    → ((pid : ℕ) → c.at pid ≡ outside)
    → Steps name bytes c d
    → IsWhole name bytes (c.files name) (d.files name)
unfolding Complete
Steps-IsWhole name bytes {c} {d} fresh ss =
    let first : Inv name bytes (c.files name) c = record {
      whole = inl refl;
      complete = λ pid small h. absurd (not-yet (sym (fresh pid) ∙ h));
    } in
    let last = Steps-Inv name bytes (c.files name) ss first in last.whole
