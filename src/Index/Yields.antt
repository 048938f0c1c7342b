-- ===== src/Index/Yields.antt =====
-- What the functions of `decode` return, whatever bytes they read: a logic of what a read yields.
use scap.Base.{
  ℕ, zero, suc, ◌^◌, ◌<◌, ◌≡◌, refl, ap, ◌∙◌, Bool, true, false, not, Option, none, some, List, [],
  ◌∷◌, arith, ltb, ◌==◌, length, set, replicate, All,
}
use scap.Base.Int.{ℤ}
use scap.Base.Bytes.{Bytes, bytes_eq, contains}
use scap.Index.{Entry, Index}
use scap.Index.Reader.{
  Reader, Read, ◌>>=◌, ◌>>◌, ret, ensure, take_bytes, u8, u32, u64, byte_string, i64, count,
}
use scap.Index.Codec.{
  magic, version, min_entry_bytes, read_patterns, is_safe_rel, is_bad_child, read_children,
  read_dir, read_entries, read_fields,
}
use scap.Index.Tree.Marks.{marks, replicate-marks, set-marks, claimed-marks}
use scap.Index.Tree.Claims.{IsFresh, after, AllFresh, after_all}

-- Whatever `m` returns satisfies `P`.
abbrev pub Post : {A : Type 0} → (A → Type 0) → Option (A × Reader) → Type 0
Post P none = Unit
Post P (some (a, r)) = P a

abbrev Yields : {A : Type 0} → Read A → (A → Type 0) → Type 0
Yields m P = (r : Reader) → Post P (m r)

Post-eq_some :
    {A : Type 0} (P : A → Type 0) (o : Option (A × Reader)) {a : A} {r : Reader}
    → Post P o
    → o ≡ some (a, r)
    → P a
Post-eq_some P o h e = rw e at h

Yields-bind :
    {A B : Type 0} (m : Read A) (f : A → Read B) (P : A → Type 0) (Q : B → Type 0)
    → Yields m P
    → ((a : A) → P a → Yields (f a) Q)
    → Yields (m >>= f) Q
Yields-bind {A} {B} m f P Q hm hf r = go (m r) (hm r)
  where
    go :
        (o : Option (A × Reader)) → Post P o → Post Q (elim o [ none ↦ none | some (a, s) ↦ f a s ])
    go none h = tt
    go (some (a, s)) h = hf a h s

Yields-any :
    {A B : Type 0} (m : Read A) (f : A → Read B) (Q : B → Type 0)
    → ((a : A) → Yields (f a) Q)
    → Yields (m >>= f) Q
Yields-any {A} {B} m f Q hf r = go (m r)
  where
    go : (o : Option (A × Reader)) → Post Q (elim o [ none ↦ none | some (a, s) ↦ f a s ])
    go none = tt
    go (some (a, s)) = hf a s

Yields-map :
    {A B : Type 0} (m : Read A) (g : A → B) (P : A → Type 0) (Q : B → Type 0)
    → Yields m P
    → ((a : A) → P a → Q (g a))
    → Yields (m >>= λ x. ret (g x)) Q
Yields-map m g P Q hm hg = Yields-bind m (λ x. ret (g x)) P Q hm (λ a p r. hg a p)

Yields-guard :
    {A : Type 0} (b : Bool) (k : Read A) (Q : A → Type 0)
    → (b ≡ true → Yields k Q)
    → Yields (ensure b >> k) Q
Yields-guard true k Q h r = h refl r
Yields-guard false k Q h r = tt

fresh-is_bad_child :
    (i total : ℕ) (seen : List ℕ) (ps : List Bool) (c : ℕ)
    → ps ≡ marks total seen
    → not (is_bad_child i total ps c) ≡ true
    → (i < c) × (c < total) × (contains c seen ≡ false)
fresh-is_bad_child i total seen ps c e h =
    let above : i < c = ground arith in
    let below : c < total = ground arith in
    (above, below, ground (arith, claimed-marks total c seen below))

-- The marks are those of the claims so far.
abbrev ChildrenRead : ℕ → ℕ → List ℕ → ℕ → List ℕ × List Bool → Type 0
ChildrenRead i total seen n p =
    IsFresh i total seen p.0 × (p.1 ≡ marks total (after seen p.0)) × (length p.0 ≡ n)

read_children-Yields :
    (i total n : ℕ) (seen : List ℕ) (ps : List Bool)
    → ps ≡ marks total seen
    → Yields (read_children i total n ps) (ChildrenRead i total seen n)
unfolding read_children
read_children-Yields i total zero seen ps e = λ r. (tt, e, refl)
read_children-Yields i total (suc n) seen ps e =
    Yields-any u32 _ (ChildrenRead i total seen (suc n)) (λ c.
      Yields-guard _ _ (ChildrenRead i total seen (suc n)) (λ good.
        Yields-bind (read_children i total n (set ps c true)) _ (ChildrenRead i total (c ∷ seen) n)
          (ChildrenRead i total seen (suc n))
          (read_children-Yields i total n (c ∷ seen) (set ps c true)
            (ap (λ x. set x c true) e ∙ set-marks total c seen))
          (λ p h r.
            let f = fresh-is_bad_child i total seen ps c e good in
            ((f.0, f.1, f.2, h.0), h.1, omega arith))))

-- A repository has no children.
abbrev pub IsEntry : Option ℤ → List ℕ → Type 0
IsEntry none cs = cs ≡ []
IsEntry (some m) cs = Unit

abbrev DirRead : ℕ → ℕ → List ℕ → Option ℤ × List ℕ × List Bool → Type 0
DirRead i total seen p =
    IsEntry p.0 p.1 × IsFresh i total seen p.1 × (p.2 ≡ marks total (after seen p.1))

read_dir-Yields :
    (i total : ℕ) (seen : List ℕ) (ps : List Bool) (kind : ℕ)
    → ps ≡ marks total seen
    → Yields (read_dir i total ps kind) (DirRead i total seen)
unfolding read_dir
read_dir-Yields i total seen ps zero e = λ r. (refl, tt, e)
read_dir-Yields i total seen ps (suc zero) e = Yields-any i64 _ (DirRead i total seen) (λ m.
    Yields-any (count 4) _ (DirRead i total seen) (λ n.
      Yields-bind (read_children i total n ps) _ (ChildrenRead i total seen n)
        (DirRead i total seen) (read_children-Yields i total n seen ps e)
        (λ p h r. (tt, h.0, h.1))))
read_dir-Yields i total seen ps (suc (suc k)) e = λ r. tt

abbrev pub EntryOk : Entry → Type 0
EntryOk e = (is_safe_rel e.rel ≡ true) × IsEntry e.mtime_ns e.children

abbrev EntriesRead : ℕ → ℕ → List ℕ → ℕ → List Entry × List Bool → Type 0
EntriesRead i total seen n p =
    All EntryOk p.0
    × AllFresh i total seen p.0
    × (p.1 ≡ marks total (after_all seen p.0))
    × (length p.0 ≡ n)

abbrev entry_before : Bytes → Option ℤ → List ℕ → List Entry × List Bool → List Entry × List Bool
entry_before rel m cs p = (record { rel = rel; mtime_ns = m; children = cs } ∷ p.0, p.1)

read_entries-Yields :
    (i total n : ℕ) (seen : List ℕ) (ps : List Bool)
    → ps ≡ marks total seen
    → Yields (read_entries i total n ps) (EntriesRead i total seen n)
unfolding read_entries
read_entries-Yields i total zero seen ps e = λ r. (tt, tt, e, refl)
read_entries-Yields i total (suc n) seen ps e =
    Yields-any u8 _ (EntriesRead i total seen (suc n)) (λ kind.
      Yields-any byte_string _ (EntriesRead i total seen (suc n)) (λ rel.
        Yields-guard _ _ (EntriesRead i total seen (suc n)) (λ safe.
          Yields-bind (read_dir i total ps kind) _ (DirRead i total seen)
            (EntriesRead i total seen (suc n)) (read_dir-Yields i total seen ps kind e)
            (λ d hd.
              Yields-map (read_entries (suc i) total n d.2)
                (λ (p : List Entry × List Bool). entry_before rel d.0 d.1 p)
                (EntriesRead (suc i) total (after seen d.1) n) (EntriesRead i total seen (suc n))
                (read_entries-Yields (suc i) total n (after seen d.1) d.2 hd.2)
                (λ p h. (((safe, hd.0), h.0), (hd.1, h.1), h.2, omega arith))))))

abbrev pub FieldsRead : Index × List Bool → Type 0
FieldsRead p =
    All EntryOk (p.0).entries
    × AllFresh 0 (length (p.0).entries) [] (p.0).entries
    × (p.1 ≡ marks (length (p.0).entries) (after_all [] (p.0).entries))

abbrev index_with : Bytes → ℕ → ℕ → ℤ → List Bytes → List Entry × List Bool → Index × List Bool
index_with root dev ino written exclude p = (
  record {
    root = root;
    dev = dev;
    ino = ino;
    written_ns = written;
    exclude = exclude;
    entries = p.0;
  },
  p.1,
)

pub read_fields-Yields : Yields read_fields FieldsRead
unfolding read_fields
read_fields-Yields = Yields-any (take_bytes (length magic)) _ FieldsRead (λ m.
    Yields-guard (bytes_eq m magic) _ FieldsRead (λ _. Yields-any u32 _ FieldsRead (λ v.
      Yields-guard (v == version) _ FieldsRead (λ _. Yields-any byte_string _ FieldsRead (λ root.
        Yields-any u64 _ FieldsRead (λ dev. Yields-any u64 _ FieldsRead (λ ino.
          Yields-any i64 _ FieldsRead (λ written. Yields-any (count 4) _ FieldsRead (λ k.
            Yields-any (read_patterns k) _ FieldsRead (λ exclude.
              Yields-any (count min_entry_bytes) _ FieldsRead (λ total.
                Yields-guard (ltb total (2 ^ 32)) _ FieldsRead (λ _.
                  Yields-map (read_entries 0 total total (replicate total false))
                    (λ (p : List Entry × List Bool). index_with root dev ino written exclude p)
                    (EntriesRead 0 total [] total) FieldsRead
                    (read_entries-Yields 0 total total [] _ (replicate-marks total))
                    (λ p h. (h.0, rw h.3 (h.1), rw h.3 (h.2)))))))))))))))
