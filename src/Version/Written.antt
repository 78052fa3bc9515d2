-- ===== src/Version/Written.antt =====
-- The outputs that `CompactionOutputWriter` writes for sorted entries.
use mizu.Base.{
  ℕ, suc, true, false, not, ◌&&◌, ◌≡◌, refl, ap, ◌∙◌, sym, subst, List, [], ◌∷◌, ◌++◌, map, All,
  arith, Bool-cases, ◌⊎◌, inl, inr, append-nil, append_assoc, leb,
}
use mizu.Base.Order.{Bytes, slice_lt, slice_eq}
use mizu.Status.{Status, Result, ok, ◌>>=◌, >>=-eq-ok}
use mizu.Entries.{Entry, entry_key, IsSorted, IsStored}
use mizu.Entries.Order.{user_keys-lt}
use mizu.Compaction.{table_user_key}
use mizu.Compaction.Runs.{record_of}
use mizu.Version.State.{Table}
use mizu.Version.Apart.{All-split}
use mizu.Version.OutputWriter.{
  OutputWriter, has_builder, fresh_writer, finish_output, add_record, add, finish, write_outputs,
}
use mizu.Version.Outputs.{
  entry-user_key, last_of, Ascends, IsSorted-Ascends, Ascends-left, Ascends-right, last_of-le,
  last_of-append, IsTableOf, Holds, Holds-cons, Holds-nothing,
}

module _ (open_output : ℕ → Status) (builder_add : List (Bytes × Bytes) → Bytes × Bytes → Status)
    (finish_builder : ℕ → List (Bytes × Bytes) → Result Table)
    (estimated_file_size : List (Bytes × Bytes) → ℕ) (target_file_size : ℕ) where
  abbrev behind_add : OutputWriter → Bytes → Bytes → Bytes → OutputWriter
  behind_add writer key user_key value = record writer {
    builder = writer.builder ++ (key, value) ∷ [];
    last_user_key = user_key;
  }

  abbrev emptied : OutputWriter → OutputWriter
  emptied writer = record { builder = []; last_user_key = []; opened = suc writer.opened }

  add_record-eq :
      (writer after : OutputWriter) (key user_key value : Bytes)
      → add_record open_output builder_add finish_builder estimated_file_size target_file_size
          writer key user_key value
        ≡ ok after
      → behind_add writer key user_key value ≡ after
  unfolding add_record
  add_record-eq writer after key user_key value h = ground (arith, h)

  -- What `add` has done if it has not failed.
  abbrev Added : OutputWriter → Bytes → Bytes → Bytes → List Table × OutputWriter → Type 0
  Added writer key user_key value step =
      ((t : Table) × (finish_builder writer.opened writer.builder ≡ ok t)
        × (slice_eq writer.last_user_key user_key ≡ false)
        × (step ≡ (
          t ∷ [],
          record {
            builder = (key, value) ∷ [];
            last_user_key = user_key;
            opened = suc writer.opened;
          },
        )))
      ⊎ (step ≡ ([], behind_add writer key user_key value))

  add-Added :
      (writer : OutputWriter) (key user_key value : Bytes) (step : List Table × OutputWriter)
      → add open_output builder_add finish_builder estimated_file_size target_file_size writer key
          user_key value
        ≡ ok step
      → Added writer key user_key value step
  unfolding add finish_output
  add-Added writer key user_key value step h =
      let cut =
        has_builder writer
        && not (slice_eq writer.last_user_key user_key)
        && leb target_file_size (estimated_file_size writer.builder) in
      let record_behind : OutputWriter → Result OutputWriter = λ w.
        add_record open_output builder_add finish_builder estimated_file_size target_file_size w key
          user_key value in
      elim (Bool-cases cut) [
        | inr stays ↦
            let (after, run, last) =
              >>=-eq-ok (record_behind writer) (λ after. ok ([], after)) (rw stays at h) in
            let same : ([], after) ≡ step = cc in
            inr (
              sym same
              ∙ ap (λ (w : OutputWriter). ([], w))
                  (sym (add_record-eq writer after key user_key value run)))
        | inl full ↦
            let (done, finished, more) =
              >>=-eq-ok
                (finish_output open_output builder_add finish_builder estimated_file_size
                  target_file_size writer)
                (λ d. record_behind d.1 >>= λ after. ok (d.0 ∷ [], after)) (rw full at h) in
            let (t, built, cut_off) =
              >>=-eq-ok (finish_builder writer.opened writer.builder) (λ c. ok (c, emptied writer))
                finished in
            let opened : (t, emptied writer) ≡ done = cc in
            let (after, run, last) =
              >>=-eq-ok (record_behind done.1) (λ after. ok (done.0 ∷ [], after)) more in
            let same : (done.0 ∷ [], after) ≡ step = cc in
            let next = add_record-eq done.1 after key user_key value run in
            inl (
              t,
              built,
              ground (arith, full),
              sym same
                  ∙ sym (ap (λ (w : OutputWriter). (done.0 ∷ [], w)) next)
                  ∙ sym (
                      ap
                        (λ (d : Table × OutputWriter).
                          (d.0 ∷ [], behind_add d.1 key user_key value))
                        opened),
            )
      ]

  -- The tables that come of an open builder and of the records behind it.
  abbrev written : OutputWriter → List Entry → Result (List Table)
  written writer es =
      write_outputs open_output builder_add finish_builder estimated_file_size target_file_size
        writer (map record_of es)

  abbrev holding : Entry → List Entry → ℕ → OutputWriter
  holding e es n = record {
    builder = map record_of (e ∷ es);
    last_user_key = (last_of e es).user_key;
    opened = n;
  }

  records-append :
      (es : List Entry) (x : Entry)
      → map record_of es ++ record_of x ∷ [] ≡ map record_of (es ++ x ∷ [])
  records-append [] x = refl
  records-append (e ∷ es) x = ap (λ r. record_of e ∷ r) (records-append es x)

  holding-append :
      (e x : Entry) (es : List Entry) (n : ℕ)
      → table_user_key (entry_key x) ≡ x.user_key
      → behind_add (holding e es n) (entry_key x) (table_user_key (entry_key x)) x.stored
        ≡ holding e (es ++ x ∷ []) n
  holding-append e x es n key =
      ap (λ b. record { builder = b; last_user_key = table_user_key (entry_key x); opened = n })
        (records-append (e ∷ es) x)
      ∙ ap
          (λ u. record {
            builder = map record_of (e ∷ es ++ x ∷ []);
            last_user_key = u;
            opened = n;
          })
          (key ∙ ap (λ (y : Entry). y.user_key) (sym (last_of-append e x es)))

  module _ (entries : Table → List Entry)
      (kept : (n : ℕ) (e : Entry) (es : List Entry) (t : Table)
        → All IsStored (e ∷ es)
        → finish_builder n (map record_of (e ∷ es)) ≡ ok t
        → IsTableOf entries t e es) where
    holding-Holds :
        (e : Entry) (es rest : List Entry) (n : ℕ) (ts : List Table)
        → All IsStored ((e ∷ es) ++ rest)
        → Ascends ((e ∷ es) ++ rest)
        → written (holding e es n) rest ≡ ok ts
        → Holds entries ((e ∷ es) ++ rest) ts
    unfolding write_outputs finish finish_output
    holding-Holds e es [] n ts stored ascends h =
        let unfinished : has_builder (holding e es n) ≡ true = ground arith in
        let (done, finished, last) =
          >>=-eq-ok
            (finish_output open_output builder_add finish_builder estimated_file_size
              target_file_size (holding e es n))
            (λ d. ok (d.0 ∷ [])) (rw unfinished at h) in
        let (t, built, cut_off) =
          >>=-eq-ok (finish_builder n (map record_of (e ∷ es)))
            (λ c. ok (c, emptied (holding e es n))) finished in
        let opened : (t, emptied (holding e es n)) ≡ done = cc in
        let same : done.0 ∷ [] ≡ ts = cc in
        subst (Holds entries ((e ∷ es) ++ []))
          (ap (λ (d : Table × OutputWriter). d.0 ∷ []) opened ∙ same)
          (Holds-cons entries e es t
            (kept n e es t (subst (All IsStored) (append-nil (e ∷ es)) stored) built)
            (subst (All IsStored) (append-nil (e ∷ es)) stored)
            (subst Ascends (append-nil (e ∷ es)) ascends) [] [] tt (Holds-nothing entries))
    holding-Holds e es (x ∷ rest) n ts stored ascends h =
        let whole = append_assoc (e ∷ es) (x ∷ []) rest in
        let ahead = All-split IsStored (e ∷ es) (x ∷ rest) stored in
        let key = entry-user_key x ahead.1.0 in
        let (step, added, more_eq) =
          >>=-eq-ok
            (add open_output builder_add finish_builder estimated_file_size target_file_size
              (holding e es n) (entry_key x) (table_user_key (entry_key x)) x.stored)
            (λ s. written s.1 rest >>= λ more. ok (s.0 ++ more)) h in
        let (more, run, last) =
          >>=-eq-ok (written step.1 rest) (λ more. ok (step.0 ++ more)) more_eq in
        let same : step.0 ++ more ≡ ts = cc in
        elim (add-Added (holding e es n) (entry_key x) (table_user_key (entry_key x)) x.stored step
          added) [
            | inr stays ↦
                let next =
                  ap (λ (s : List Table × OutputWriter). s.1) stays ∙ holding-append e x es n key in
                let rest_holds =
                  holding-Holds e (es ++ x ∷ []) rest n more
                    (subst (All IsStored) (sym whole) stored) (subst Ascends (sym whole) ascends)
                    (ap (λ w. written w rest) (sym next) ∙ run) in
                subst (Holds entries ((e ∷ es) ++ x ∷ rest))
                  (ap (λ (s : List Table × OutputWriter). s.0 ++ more) (sym stays) ∙ same)
                  (subst (λ l. Holds entries l more) whole rest_holds)
            | inl (t, built, different, cut) ↦
                let next =
                  ap (λ (s : List Table × OutputWriter). s.1) cut
                  ∙ ap
                      (λ u. record {
                        builder = record_of x ∷ [];
                        last_user_key = u;
                        opened = suc n;
                      })
                      key in
                let rest_ascends = Ascends-right (e ∷ es) (x ∷ rest) ascends in
                let le = last_of-le e es (x ∷ rest) ascends in
                let other : slice_eq (last_of e es).user_key x.user_key ≡ false =
                  rw key at different in
                let rest_holds =
                  holding-Holds x [] rest (suc n) more ahead.1 rest_ascends
                    (ap (λ w. written w rest) (sym next) ∙ run) in
                let before : slice_lt (last_of e es).user_key x.user_key ≡ true =
                  ground (arith, le.0) in
                subst (Holds entries ((e ∷ es) ++ x ∷ rest))
                  (ap (λ (s : List Table × OutputWriter). s.0 ++ more) (sym cut) ∙ same)
                  (Holds-cons entries e es t (kept n e es t ahead.0 built) ahead.0
                    (Ascends-left (e ∷ es) (x ∷ rest) ascends) (x ∷ rest) more
                    (before, user_keys-lt (last_of e es).user_key x rest before rest_ascends.0)
                    rest_holds)
          ]

    fresh-Holds :
        (es : List Entry) (ts : List Table)
        → All IsStored es
        → Ascends es
        → written fresh_writer es ≡ ok ts
        → Holds entries es ts
    unfolding write_outputs finish add
    fresh-Holds [] ts stored ascends h =
        let same : [] ≡ ts = cc in subst (Holds entries []) same (Holds-nothing entries)
    fresh-Holds (x ∷ rest) ts stored ascends h =
        let key = entry-user_key x stored.0 in
        let (step, added, more_eq) =
          >>=-eq-ok
            (add open_output builder_add finish_builder estimated_file_size target_file_size
              fresh_writer (entry_key x) (table_user_key (entry_key x)) x.stored)
            (λ s. written s.1 rest >>= λ more. ok (s.0 ++ more)) h in
        let (after, recorded, end_eq) =
          >>=-eq-ok
            (add_record open_output builder_add finish_builder estimated_file_size target_file_size
              fresh_writer (entry_key x) (table_user_key (entry_key x)) x.stored)
            (λ w. ok ([], w)) added in
        let (more, run, last) =
          >>=-eq-ok (written step.1 rest) (λ more. ok (step.0 ++ more)) more_eq in
        let stays : ([], after) ≡ step = cc in
        let same : step.0 ++ more ≡ ts = cc in
        let next =
          ap (λ u. record { builder = record_of x ∷ []; last_user_key = u; opened = 0 }) (sym key)
          ∙ add_record-eq fresh_writer after (entry_key x) (table_user_key (entry_key x)) x.stored
              recorded
          ∙ ap (λ (s : List Table × OutputWriter). s.1) stays in
        subst (Holds entries (x ∷ rest))
          (ap (λ (s : List Table × OutputWriter). s.0 ++ more) stays ∙ same)
          (holding-Holds x [] rest 0 more stored ascends (ap (λ w. written w rest) next ∙ run))

    -- If `CompactionOutputWriter` returns outputs for the records of sorted entries, these tables hold
    -- the entries one behind the other, no user key is in two of them, and their bounds are keys of
    -- the entries.
    pub write_outputs-Holds :
        (es : List Entry) (ts : List Table)
        → IsSorted es
        → All IsStored es
        → written fresh_writer es ≡ ok ts
        → Holds entries es ts
    write_outputs-Holds es ts sorted stored h =
        fresh-Holds es ts stored (IsSorted-Ascends es sorted) h
