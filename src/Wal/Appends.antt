-- ===== src/Wal/Appends.antt =====
-- What `WalWriter::append` leaves in the file, whatever the system does with its writes.
use mizu.Base.{
  ℕ, ◌+◌, ◌-◌, ◌≤◌, ◌<◌, ◌≡◌, ◌⊎◌, inl, inr, refl, ap, ◌∙◌, sym, subst, true, false, none, some,
  List, [], ◌∷◌, ◌++◌, String, min, ◌==◌, length, take, drop, arith, length-append, append_assoc,
  append-nil, length-drop, take-add, take-append_right, take-append_le, take-length, Bool-cases,
}
use mizu.Base.Order.{Bytes}
use mizu.Status.{success, is_ok, io_error, invalid_argument}
use mizu.Coding.{put_fixed32}
use mizu.Wal.Io.{IoOutcome, transferred, interrupted, failed, killed}
use mizu.Wal.Writer.{
  WalWriter, Called, latch_io_error, write_all, then_write, append, max_record_payload_size, eio,
}
use mizu.Wal.Format.{IsPayload, header}

-- `k` bytes of `bytes` reached the file: all of them if the call succeeded, not all if it failed with
-- its error latched, and any number if the process stopped inside it.
abbrev pub Completed : Bytes → ℕ → Called → Type 0
Completed bytes k c = (c.status ≡ some success) × (k ≡ length bytes) × (is_ok c.writer.error ≡ true)

abbrev pub Failed : Bytes → ℕ → Called → Type 0
Failed bytes k c =
    (k < length bytes) × (c.status ≡ some c.writer.error) × (is_ok c.writer.error ≡ false)

abbrev pub Stopped : Bytes → ℕ → Called → Type 0
Stopped bytes k c = (k ≤ length bytes) × (c.status ≡ none)

pub record Wrote (before : Bytes) (bytes : Bytes) (c : Called) : Type 0 where
  pub k : ℕ
  pub file : c.writer.file ≡ before ++ take k bytes
  pub ended : Completed bytes k c ⊎ (Failed bytes k c ⊎ Stopped bytes k c)

-- After a first part of the bytes, the rest.
Wrote-more :
    (before : Bytes) (bytes : Bytes) (m : ℕ) (c : Called)
    → m ≤ length bytes
    → Wrote (before ++ take m bytes) (drop m bytes) c
    → Wrote before bytes c
Wrote-more before bytes m c h r = record {
  k = m + r.k;
  file =
      r.file
      ∙ append_assoc before (take m bytes) (take r.k (drop m bytes))
      ∙ ap (λ b. before ++ b) (take-add m r.k (m + r.k) bytes refl);
  ended = elim r.ended [
    | inl (s, all, good) ↦ inl (s, omega (arith, all, length-drop m bytes), good)
    | inr (inl (less, s, bad)) ↦ inr (inl (omega (arith, less, length-drop m bytes), s, bad))
    | inr (inr (most, why)) ↦ inr (inr (omega (arith, most, length-drop m bytes), why))
  ];
}

-- Two strings written one after the other.
Wrote-append :
    (before : Bytes) (xs ys : Bytes) (c : Called)
    → Wrote (before ++ xs) ys c
    → Wrote before (xs ++ ys) c
Wrote-append before xs ys c r = record {
  k = length xs + r.k;
  file =
      r.file
      ∙ append_assoc before xs (take r.k ys)
      ∙ ap (λ b. before ++ b)
          (sym (
            take-append_right (length xs + r.k) xs ys (omega arith)
            ∙ ap (λ n. xs ++ take n ys)
                (let e : length xs + r.k - length xs ≡ r.k = omega arith in e)));
  ended = elim r.ended [
    | inl (s, all, good) ↦ inl (s, omega (arith, all, length-append xs ys), good)
    | inr (inl (less, s, bad)) ↦ inr (inl (omega (arith, less, length-append xs ys), s, bad))
    | inr (inr (most, why)) ↦ inr (inr (omega (arith, most, length-append xs ys), why))
  ];
}

Wrote-front :
    (before : Bytes) (xs ys : Bytes) (c : Called) (k : ℕ)
    → c.writer.file ≡ before ++ take k xs
    → Failed xs k c ⊎ Stopped xs k c
    → Wrote before (xs ++ ys) c
Wrote-front before xs ys c k file (inl (less, s, bad)) = record {
  k = k;
  file = file ∙ ap (λ b. before ++ b) (sym (take-append_le k xs ys (omega arith)));
  ended = inr (inl (omega (arith, length-append xs ys), s, bad));
}
Wrote-front before xs ys c k file (inr (most, why)) = record {
  k = k;
  file = file ∙ ap (λ b. before ++ b) (sym (take-append_le k xs ys (omega arith)));
  ended = inr (inr (omega (arith, length-append xs ys), why));
}

module _ (describe : String → ℕ → String) where
  latched-Wrote :
      (script : List IoOutcome) (operation : String) (n : ℕ) (w : WalWriter) (b : ℕ) (rest : Bytes)
      → is_ok w.error ≡ true
      → let after : WalWriter = latch_io_error describe operation n w in
        Wrote w.file
          (b ∷ rest)
          (record { status = some after.error; script = script; writer = after })
  unfolding latch_io_error io_error
  latched-Wrote script operation n w b rest h = rw h (record {
    k = 0;
    file = sym (append-nil w.file);
    ended = inr (inl (omega arith, refl, refl));
  })

  pub write_all-Wrote :
      (script : List IoOutcome) (w : WalWriter) (bytes : Bytes)
      → is_ok w.error ≡ true
      → Wrote w.file bytes (write_all describe script w bytes)
  unfolding write_all
  write_all-Wrote script w [] h = record {
    k = 0;
    file = sym (append-nil w.file);
    ended = inl (refl, refl, h);
  }
  write_all-Wrote [] w (b ∷ rest) h = record {
    k = 0;
    file = sym (append-nil w.file);
    ended = inr (inr (omega arith, refl));
  }
  write_all-Wrote (killed n ∷ script) w (b ∷ rest) h = record {
    k = min n (length (b ∷ rest));
    file = refl;
    ended = inr (inr (omega arith, refl));
  }
  write_all-Wrote (interrupted ∷ script) w (b ∷ rest) h = write_all-Wrote script w (b ∷ rest) h
  write_all-Wrote (failed n ∷ script) w (b ∷ rest) h = latched-Wrote script "write WAL" n w b rest h
  write_all-Wrote (transferred n ∷ script) w (b ∷ rest) h =
      let m = min n (length (b ∷ rest)) in
      let later =
        write_all-Wrote script (record w { file = w.file ++ take m (b ∷ rest) }) (drop m (b ∷ rest))
          h in
      elim (Bool-cases (m == 0)) [
        | inl nothing ↦ rw (nothing, write_all) (latched-Wrote script "write WAL" eio w b rest h)
        | inr some_bytes ↦
            rw (some_bytes, write_all) (Wrote-more w.file (b ∷ rest) m _ (omega arith) later)
      ]

  append-accepted :
      (script : List IoOutcome) (w : WalWriter) (payload : Bytes)
      → is_ok w.error ≡ true
      → IsPayload payload
      → append describe script w payload
        ≡ then_write describe (write_all describe script w (header payload)) payload
  unfolding append put_fixed32
  append-accepted script w payload h valid = ground (arith, valid.nonempty, valid.fits)

  then_write-success :
      (c : Called) (payload : Bytes)
      → c.status ≡ some success
      → then_write describe c payload ≡ write_all describe c.script c.writer payload
  unfolding then_write success
  then_write-success c payload s = ground arith

  then_write-failed :
      (c : Called) (payload : Bytes)
      → (k : ℕ) (bytes : Bytes) → Failed bytes k c ⊎ Stopped bytes k c
      → then_write describe c payload ≡ c
  unfolding then_write
  then_write-failed c payload k bytes (inl (less, s, e)) = ground arith
  then_write-failed c payload k bytes (inr (most, s)) = ground arith

  -- Whatever the system calls do, an append of a payload of 1 byte to 64 MiB to a writer without an
  -- error leaves behind the old file a prefix of the payload's entry: the whole entry if it returns
  -- success, less than that with the error latched if it returns another status, and any part or the
  -- whole of the entry if the process stops inside it.
  pub append-Wrote :
      (script : List IoOutcome) (w : WalWriter) (payload : Bytes)
      → is_ok w.error ≡ true
      → IsPayload payload
      → Wrote w.file (header payload ++ payload) (append describe script w payload)
  append-Wrote script w payload h valid =
      let c = write_all describe script w (header payload) in
      let first = write_all-Wrote script w (header payload) h in
      rw (append-accepted script w payload h valid) (elim first.ended [
        | inl (s, all, good) ↦
            let file : c.writer.file ≡ w.file ++ header payload =
              first.file
              ∙ ap (λ b. w.file ++ b) (take-length first.k (header payload) (omega arith)) in
            rw (then_write-success c payload s) (
              Wrote-append w.file (header payload) payload _ (
                subst (λ f. Wrote f payload (write_all describe c.script c.writer payload)) file
                  (write_all-Wrote c.script c.writer payload good)))
        | inr stop ↦
            rw (then_write-failed c payload first.k (header payload) stop)
              (Wrote-front w.file (header payload) payload c first.k first.file stop)
      ])

  -- A call that is refused says why, and writes nothing.
  pub append_latched :
      (script : List IoOutcome) (w : WalWriter) (payload : Bytes)
      → is_ok w.error ≡ false
      → append describe script w payload
        ≡ record { status = some w.error; script = script; writer = w }
  unfolding append
  append_latched script w payload h = ground arith

  pub append_empty :
      (script : List IoOutcome) (w : WalWriter) (payload : Bytes)
      → is_ok w.error ≡ true
      → length payload ≡ 0
      → append describe script w payload ≡ record {
        status = some (invalid_argument "WAL record payload must not be empty");
        script = script;
        writer = w;
      }
  unfolding append
  append_empty script w payload h e = ground arith

  pub append_too_large :
      (script : List IoOutcome) (w : WalWriter) (payload : Bytes)
      → is_ok w.error ≡ true
      → max_record_payload_size < length payload
      → append describe script w payload ≡ record {
        status = some (invalid_argument "WAL record payload exceeds 64 MiB");
        script = script;
        writer = w;
      }
  unfolding append
  append_too_large script w payload h e = ground arith
