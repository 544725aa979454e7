-- ===== src/Storage/Lsm/SkipLists/Tables.antt =====
-- The memtable over the skip list keeps the laws that the engine and the recovery rely on.
use mathlib.Core.Path.{subst}
use test_db.Prelude.{
  ℕ, ◌+◌, ◌≡◌, refl, sym, ap, ◌∙◌, arith, Bool, true, false, Option, none, some, List, [], ◌∷◌,
  ◌++◌, Str, str_eq, str_eq_refl, if◌then◌else◌, length, Bool-cases, inl, inr,
}
use test_db.Storage.Row.{Row}
use test_db.Storage.Wal.Recovery
use test_db.Storage.Lsm.Merge.Sources.{IsAscending, row_of}
use test_db.Storage.Lsm.Engine.{MemTables}
use test_db.Storage.Lsm.SkipLists.{
  SkipNode, SkipList, MemTable, link_node, put_behind, put_node, find_less, get_node, scan_nodes,
  empty_table, with_put, put, should_flush, all_of, all,
}
use test_db.Storage.Lsm.SkipLists.Inserted.{insert_row-IsAscending, row_of-insert_row}
use test_db.Storage.Lsm.SkipLists.Found.{find_less-IsAt}
use test_db.Storage.Lsm.SkipLists.Laws.{all_of-put_node, get_node-row_of, scan_nodes-filter}

-- A memtable as the calls leave it: its keys rise strictly, and the list counts its nodes.
pub record Table : Type 0 where
  pub mem : MemTable
  pub ascending : IsAscending (all mem)
  pub counted : mem.tree.size ≡ length (all mem)

length-all_of :
    (xs ys : List SkipNode) → length (all_of (xs ++ ys)) ≡ length (all_of xs) + length (all_of ys)
length-all_of [] ys = omega arith
length-all_of (x ∷ xs) ys = omega (arith, length-all_of xs ys)

abbrev pub mem_of : Option Table → Option MemTable
mem_of none = none
mem_of (some m) = some m.mem

module _ (toss : ℕ → Bool) where
  put_behind-counted :
      (k : Str) (r : Row) (before behind : List SkipNode) (sl : SkipList)
      → sl.size ≡ length (all_of (before ++ behind))
      → (put_behind toss k r before behind sl).1.size
        ≡ length (all_of (put_behind toss k r before behind sl).1.nodes)
  unfolding put_behind link_node
  put_behind-counted k r before [] sl h = omega (
    arith,
    h,
    length-all_of before [],
    length-all_of before (record { key = k; value = r; height = _ } ∷ []),
  )
  put_behind-counted k r before (n ∷ ns) sl h = elim (Bool-cases (str_eq n.key k)) [
    | inl same ↦ rw (same) (
        omega (
          arith,
          h,
          length-all_of before (n ∷ ns),
          length-all_of before (record n { value = r } ∷ ns),
        ))
    | inr other ↦ rw (other) (
        omega (
          arith,
          h,
          length-all_of before (n ∷ ns),
          length-all_of before (record { key = k; value = r; height = _ } ∷ n ∷ ns),
        ))
  ]

  pub put_node-counted :
      (k : Str) (r : Row) (m : Table)
      → (put_node toss k r m.mem.tree).1.size
        ≡ length (all_of (put_node toss k r m.mem.tree).1.nodes)
  unfolding put_node
  put_node-counted k r m =
      let at = find_less-IsAt k m.mem.tree m.ascending in
      put_behind-counted k r (find_less k m.mem.tree).before (find_less k m.mem.tree).behind
        m.mem.tree (m.counted ∙ ap (λ ns. length (all_of ns)) (sym at.joined))

  -- Put of a table that is not frozen.
  unfoldable pub put_open : Str → Row → Table → Table
  put_open k r m = record {
    mem = with_put k r (put_node toss k r m.mem.tree) m.mem;
    ascending =
        subst IsAscending (sym (all_of-put_node toss k r m.mem.tree m.ascending))
          (insert_row-IsAscending k r (all m.mem) m.ascending);
    counted = put_node-counted k r m;
  }

  unfoldable pub put_table : Str → Row → Table → Option Table
  unfolding put_open
  put_table k r m = if m.mem.frozen then none else some (put_open k r m)

  -- It is the Put of the memtable.
  pub put_table-put :
      (k : Str) (r : Row) (m : Table) → mem_of (put_table k r m) ≡ put toss k r m.mem
  unfolding put_table put put_open
  put_table-put k r m = elim (Bool-cases m.mem.frozen) [
    | inl frozen ↦ rw (frozen) refl
    | inr thawed ↦ rw (thawed) refl
  ]

  pub put_table-open :
      (k : Str) (r : Row) (m : Table)
      → m.mem.frozen ≡ false
      → put_table k r m ≡ some (put_open k r m)
  unfolding put_table
  put_table-open k r m h = rw (h) refl

  pub put_table-some :
      (k : Str) (r : Row) (m m' : Table)
      → put_table k r m ≡ some m'
      → (m.mem.frozen ≡ false) × (put_open k r m ≡ m')
  unfolding put_table
  put_table-some k r m m' h = elim (Bool-cases m.mem.frozen) [
    | inl frozen ↦
        absurd (cc (ap (λ b. if b then none else some (put_open k r m)) (sym frozen) ∙ h))
    | inr thawed ↦
        (thawed, cc (ap (λ b. if b then none else some (put_open k r m)) (sym thawed) ∙ h))
  ]

  pub row_of-put_open :
      (k j : Str) (r : Row) (m : Table)
      → row_of j (all (put_open k r m).mem) ≡ (if str_eq k j then some r else row_of j (all m.mem))
  unfolding put_open
  row_of-put_open k j r m =
      ap (row_of j) (all_of-put_node toss k r m.mem.tree m.ascending)
      ∙ row_of-insert_row k j r (all m.mem)

  pub put_open-frozen : (k : Str) (r : Row) (m : Table) → (put_open k r m).mem.frozen ≡ m.mem.frozen
  unfolding put_open
  put_open-frozen k r m = refl

  -- Tables that are full at `max_size`; the tosses of every table are those of `toss`.
  unfoldable pub skip_tables : ℕ → MemTables
  unfolding put_table
  skip_tables max_size = record {
    State = Table;
    empty = record { mem = empty_table; ascending = tt; counted = refl };
    entries = λ m. all m.mem;
    len = λ m. m.mem.tree.size;
    should_flush = λ m. should_flush max_size m.mem;
    is_frozen = λ m. m.mem.frozen;
    freeze = λ m. record m { mem = record m.mem { frozen = true } };
    put = put_table;
    get = λ k m. get_node k m.mem.tree;
    scan = λ start end m. scan_nodes start end m.mem.tree;
    entries-IsAscending = λ m. m.ascending;
    entries-empty = refl;
    empty_is_frozen = refl;
    len-entries = λ m. m.counted;
    entries-freeze = λ m. refl;
    get-row_of = λ k m. get_node-row_of k m.mem.tree m.ascending;
    put-some = λ k r m h. (put_open k r m, put_table-open k r m h);
    entries-put = λ k j r m m' h.
        ap (λ (x : Table). row_of j (all x.mem)) (sym (put_table-some k r m m' h).1)
        ∙ row_of-put_open k j r m;
    put-is_frozen = λ k r m m' h.
        ap (λ (x : Table). x.mem.frozen) (sym (put_table-some k r m m' h).1)
        ∙ put_open-frozen k r m
        ∙ (put_table-some k r m m' h).0;
    scan-filter = λ start end m. scan_nodes-filter start end m.mem.tree m.ascending;
  }

  -- The replay's Put, whose refusal by a frozen table is only logged.
  unfoldable pub put_or_same : Str → Row → Table → Table
  put_or_same k r m = if m.mem.frozen then m else put_open k r m

  pub put_or_same-open :
      (k : Str) (r : Row) (m : Table) → m.mem.frozen ≡ false → put_or_same k r m ≡ put_open k r m
  unfolding put_or_same
  put_or_same-open k r m h = rw (h) refl

  pub put_or_same-frozen :
      (k : Str) (r : Row) (m : Table) → m.mem.frozen ≡ true → put_or_same k r m ≡ m
  unfolding put_or_same
  put_or_same-frozen k r m h = rw (h) refl

  pub frozen-put_or_same :
      (k : Str) (r : Row) (m : Table) → (put_or_same k r m).mem.frozen ≡ m.mem.frozen
  frozen-put_or_same k r m = elim (Bool-cases m.mem.frozen) [
    | inl frozen ↦ ap (λ (x : Table). x.mem.frozen) (put_or_same-frozen k r m frozen)
    | inr thawed ↦
        ap (λ (x : Table). x.mem.frozen) (put_or_same-open k r m thawed) ∙ put_open-frozen k r m
  ]

  pub get-put_or_same :
      (k j : Str) (r : Row) (m : Table)
      → m.mem.frozen ≡ false
      → get_node j (put_or_same k r m).mem.tree
        ≡ (if str_eq k j then some r else get_node j m.mem.tree)
  get-put_or_same k j r m thawed =
      get_node-row_of j (put_or_same k r m).mem.tree (put_or_same k r m).ascending
      ∙ ap (λ (x : Table). row_of j (all x.mem)) (put_or_same-open k r m thawed)
      ∙ row_of-put_open k j r m
      ∙ ap (λ o. if str_eq k j then some r else o) (sym (get_node-row_of j m.mem.tree m.ascending))

  unfoldable pub recovery_table : Recovery.MemTable
  unfolding put_or_same
  recovery_table = record {
    State = Table;
    is_frozen = λ m. m.mem.frozen;
    put = put_or_same;
    get = λ k m. get_node k m.mem.tree;
    put-is_frozen = frozen-put_or_same;
    put-frozen = put_or_same-frozen;
    get-put = λ k r m h.
        get-put_or_same k k r m h
        ∙ ap (λ b. if b then some r else get_node k m.mem.tree) (str_eq_refl k);
    get-put_other = λ k j r m h other.
        get-put_or_same k j r m h ∙ ap (λ b. if b then some r else get_node j m.mem.tree) other;
  }
