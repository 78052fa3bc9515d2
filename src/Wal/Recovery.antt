-- ===== src/Wal/Recovery.antt =====
-- Appends of one process and the reading of its log after it stopped: what was acknowledged is
-- what is found.
use mizu.Base.{
  ℕ, zero, suc, ◌+◌, ◌≤◌, ◌<◌, ◌≡◌, ◌⊎◌, inl, inr, refl, ap, ◌∙◌, sym, subst, true, false, Option,
  none, some, List, [], ◌∷◌, ◌++◌, String, ltb, ◌==◌, if◌then◌else◌, length, take, arith, All,
  length-append, append_assoc, append-nil, Bool-cases, take-length,
}
use mizu.Base.Order.{Bytes}
use mizu.Status.{Status, success, is_ok, invalid_argument}
use mizu.Wal.Io.{IoOutcome}
use mizu.Wal.Writer.{WalWriter, Called, append, max_record_payload_size}
use mizu.Wal.Format.{
  Scan, scan, IsPayload, header, log_bytes, scan-entry_bytes, scan-torn, length-header,
  length-entry_bytes,
}
use mizu.Wal.Appends.{Wrote, append-Wrote, append_latched, append_empty, append_too_large}

-- The entries of a log up to its end: their payloads and the number of valid bytes, or `none` where
-- an entry is bad. Each entry takes nine bytes or more, so the length of the log is fuel enough.
unfoldable pub scan_all : ℕ → Bytes → Option (List Bytes × ℕ)
scan_all zero bytes = some ([], 0)
scan_all (suc fuel) bytes = elim (scan bytes) [
  | Scan.tail ↦ some ([], 0)
  | Scan.bad message ↦ none
  | Scan.whole payload rest ↦ elim (scan_all fuel rest) [
    | none ↦ none
    | some (payloads, valid) ↦ some (payload ∷ payloads, 8 + length payload + valid)
  ]
]

abbrev pub recovered : Bytes → Option (List Bytes × ℕ)
recovered bytes = scan_all (suc (length bytes)) bytes

abbrev pub log_size : List Bytes → ℕ
log_size [] = 0
log_size (p ∷ ps) = 8 + length p + log_size ps

pub length-log_bytes :
    (ps : List Bytes) (rest : Bytes) → length (log_bytes ps rest) ≡ log_size ps + length rest
length-log_bytes [] rest = omega arith
length-log_bytes (p ∷ ps) rest =
    omega (arith, length-entry_bytes p (log_bytes ps rest), length-log_bytes ps rest)

scan_all-tail :
    (fuel : ℕ) (bytes : Bytes) → scan bytes ≡ Scan.tail → scan_all fuel bytes ≡ some ([], 0)
unfolding scan_all
scan_all-tail zero bytes h = refl
scan_all-tail (suc fuel) bytes h = rw (h, scan_all)

scan_all-whole :
    (fuel : ℕ) (bytes : Bytes) {p rest : Bytes} {ps : List Bytes} {v : ℕ}
    → scan bytes ≡ Scan.whole p rest
    → scan_all fuel rest ≡ some (ps, v)
    → scan_all (suc fuel) bytes ≡ some (p ∷ ps, 8 + length p + v)
unfolding scan_all
scan_all-whole fuel bytes h k = ground arith

scan_all-log :
    (ps : List Bytes) (torn : Bytes) (fuel : ℕ)
    → All IsPayload ps
    → scan torn ≡ Scan.tail
    → log_size ps ≤ fuel
    → scan_all fuel (log_bytes ps torn) ≡ some (ps, log_size ps)
scan_all-log [] torn fuel h end enough = scan_all-tail fuel torn end
scan_all-log (p ∷ ps) torn zero h end enough = absurd (omega arith)
scan_all-log (p ∷ ps) torn (suc fuel) h end enough =
    scan_all-whole fuel (log_bytes (p ∷ ps) torn) (scan-entry_bytes p (log_bytes ps torn) h.0)
      (scan_all-log ps torn fuel h.1 end (omega arith))

-- A log of whole entries and a tail that holds none is read to the end of the entries.
pub recovered-log :
    (ps : List Bytes) (torn : Bytes)
    → All IsPayload ps
    → scan torn ≡ Scan.tail
    → recovered (log_bytes ps torn) ≡ some (ps, log_size ps)
recovered-log ps torn h end =
    scan_all-log ps torn (suc (length (log_bytes ps torn))) h end
      (omega (arith, length-log_bytes ps torn))

scan-nothing : scan [] ≡ Scan.tail
unfolding scan
scan-nothing = refl

log_bytes-extend : (ps : List Bytes) (x : Bytes) → log_bytes ps [] ++ x ≡ log_bytes ps x
log_bytes-extend [] x = refl
log_bytes-extend (p ∷ ps) x =
    append_assoc (header p) (p ++ log_bytes ps []) x
    ∙ ap (λ b. header p ++ b)
        (append_assoc p (log_bytes ps []) x ∙ ap (λ b. p ++ b) (log_bytes-extend ps x))

log_bytes-snoc :
    (ps : List Bytes) (p : Bytes) → log_bytes (ps ++ p ∷ []) [] ≡ log_bytes ps (header p ++ p)
log_bytes-snoc [] p = ap (λ b. header p ++ b) (append-nil p)
log_bytes-snoc (q ∷ ps) p = ap (λ b. header q ++ (q ++ b)) (log_bytes-snoc ps p)

All-snoc {ℓ κ} :
    {A : Type ℓ} (P : A → Type κ) (xs : List A) (x : A) → All P xs → P x → All P (xs ++ x ∷ [])
All-snoc P [] x h k = (k, tt)
All-snoc P (y ∷ xs) x h k = (h.0, All-snoc P xs x h.1 k)

-- The appends of one process on one log: the payloads whose append returned success, the payload in
-- whose append the process stopped, and the writer when all calls are made or the process stopped.
pub record Run : Type 0 where
  pub acknowledged : List Bytes
  pub in_flight : Option Bytes
  pub writer : WalWriter

module _ (describe : String → ℕ → String) where
  unfoldable pub run_appends : List IoOutcome → WalWriter → List Bytes → List Bytes → Run
  run_appends script w done [] = record { acknowledged = done; in_flight = none; writer = w }
  run_appends script w done (p ∷ ps) =
      let c = append describe script w p in
      elim c.status [
        | none ↦ record { acknowledged = done; in_flight = some p; writer = c.writer }
        | some status ↦
            run_appends c.script c.writer (if is_ok status then done ++ p ∷ [] else done) ps
      ]

  -- A log of whole entries, and behind them no more than a part of an entry.
  record Left (done : List Bytes) (w : WalWriter) : Type 0 where
    payloads : All IsPayload done
    torn : Bytes
    file : w.file ≡ log_bytes done torn
    ends : scan torn ≡ Scan.tail

  -- While the writer works, nothing stands behind the entries.
  record Holds (done : List Bytes) (w : WalWriter) : Type 0 where
    log : Left done w
    open log use *
    clean : is_ok w.error ≡ true → torn ≡ []

  -- What one append does to such a log: stop, acknowledge or refuse.
  data Step (done : List Bytes) (p : Bytes) (c : Called) : Type 0 where
    stop : c.status ≡ none → Left done c.writer ⊎ Left (done ++ p ∷ []) c.writer → Step done p c
    acknowledge :
        (s : Status)
        → c.status ≡ some s
        → is_ok s ≡ true
        → Holds (done ++ p ∷ []) c.writer
        → Step done p c
    refuse :
        (s : Status) → c.status ≡ some s → is_ok s ≡ false → Holds done c.writer → Step done p c

  refused :
      {done : List Bytes} {p : Bytes} {w : WalWriter} {c : Called} {script : List IoOutcome}
      (s : Status)
      → Holds done w
      → is_ok s ≡ false
      → c ≡ record { status = some s; script = script; writer = w }
      → Step done p c
  refused {done} {p} s h bad e = subst (λ c. Step done p c) (sym e) (refuse s refl bad h)

  wrote :
      {done : List Bytes} {p : Bytes} {w : WalWriter} {c : Called}
      → Holds done w
      → is_ok w.error ≡ true
      → IsPayload p
      → Wrote w.file (header p ++ p) c
      → Step done p c
  unfolding success
  wrote {done} {p} {w} {c} h good valid r =
      let front : w.file ≡ log_bytes done [] = h.file ∙ ap (log_bytes done) (h.clean good) in
      let file : c.writer.file ≡ log_bytes done (take r.k (header p ++ p)) =
        r.file
        ∙ ap (λ b. b ++ take r.k (header p ++ p)) front
        ∙ log_bytes-extend done (take r.k (header p ++ p)) in
      let size = length-append (header p) p in
      let part : r.k < length (header p ++ p) → Left done c.writer = λ less. record {
        payloads = h.payloads;
        torn = take r.k (header p ++ p);
        file = file;
        ends = scan-torn p r.k valid (omega (arith, size, length-header p));
      } in
      let whole : length (header p ++ p) ≤ r.k → Left (done ++ p ∷ []) c.writer = λ all. record {
        payloads = All-snoc IsPayload done p h.payloads valid;
        torn = [];
        file =
            file
            ∙ ap (log_bytes done) (take-length r.k (header p ++ p) (omega (arith, all)))
            ∙ sym (log_bytes-snoc done p);
        ends = scan-nothing;
      } in
      elim r.ended [
        | inl (s, all, ok_error) ↦
            let log = whole (omega (arith, all)) in
            acknowledge success s refl (record { log = log; clean = λ e. refl })
        | inr (inr (most, s)) ↦ elim (Bool-cases (ltb r.k (length (header p ++ p)))) [
          | inl less ↦ stop s (inl (part (ground (arith, less))))
          | inr all ↦ stop s (inr (whole (ground (arith, all))))
        ]
        | inr (inl (less, s, bad)) ↦
            refuse c.writer.error s bad
              (record { log = part less; clean = λ e. absurd (cc (bad, e)) })
      ]

  append-Step :
      (script : List IoOutcome) {w : WalWriter} {done : List Bytes} (p : Bytes)
      → Holds done w
      → Step done p (append describe script w p)
  unfolding invalid_argument
  append-Step script {w} p h = elim (Bool-cases (is_ok w.error)) [
    | inr bad ↦ refused w.error h bad (append_latched describe script w p bad)
    | inl good ↦ elim (Bool-cases (length p == 0)) [
      | inl e ↦ refused _ h refl (append_empty describe script w p good (ground (arith, e)))
      | inr nonempty ↦ elim (Bool-cases (ltb max_record_payload_size (length p))) [
        | inl e ↦ refused _ h refl (append_too_large describe script w p good (ground (arith, e)))
        | inr fits ↦
            let valid : IsPayload p = record {
              nonempty = ground (arith, nonempty);
              fits = ground (arith, fits);
            } in
            wrote h good valid (append-Wrote describe script w p good valid)
      ]
    ]
  ]

  run_appends-stop :
      (script : List IoOutcome) (w : WalWriter) (done : List Bytes) (p : Bytes) (ps : List Bytes)
      → let c : Called = append describe script w p in
        c.status ≡ none
        → run_appends script w done (p ∷ ps)
          ≡ record { acknowledged = done; in_flight = some p; writer = c.writer }
  unfolding run_appends
  run_appends-stop script w done p ps e = rw (e, run_appends)

  run_appends-next :
      (script : List IoOutcome) (w : WalWriter) (done : List Bytes) (p : Bytes) (ps : List Bytes)
      (s : Status)
      → let c : Called = append describe script w p in
        c.status ≡ some s
        → run_appends script w done (p ∷ ps)
          ≡ run_appends c.script c.writer (if is_ok s then done ++ p ∷ [] else done) ps
  unfolding run_appends
  run_appends-next script w done p ps s e = rw (e, run_appends)

  Left-run :
      (script : List IoOutcome) (w : WalWriter) (done ps : List Bytes)
      → Holds done w
      → let r : Run = run_appends script w done ps in
        Left r.acknowledged r.writer
        ⊎ ((p : Bytes) × (r.in_flight ≡ some p) × Left (r.acknowledged ++ p ∷ []) r.writer)
  Left-run script w done [] h = unfold run_appends in inl h.log
  Left-run script w done (p ∷ ps) h =
      let c = append describe script w p in
      let acknowledged = Left-run c.script c.writer (done ++ p ∷ []) ps in
      let unchanged = Left-run c.script c.writer done ps in
      elim (append-Step script p h) [
        | stop e (inl left) ↦ rw (run_appends-stop script w done p ps e) (inl left)
        | stop e (inr more) ↦ rw (run_appends-stop script w done p ps e) (inr (p, refl, more))
        | acknowledge s e good after ↦
            rw (run_appends-next script w done p ps s e, good) (acknowledged after)
        | refuse s e bad after ↦ rw (run_appends-next script w done p ps s e, bad) (unchanged after)
      ]

  Left-recovered :
      {done : List Bytes} {w : WalWriter}
      → Left done w
      → recovered w.file ≡ some (done, log_size done)
  Left-recovered {done} left =
      ap recovered left.file ∙ recovered-log done left.torn left.payloads left.ends

  -- Whatever the system calls do in a run of appends, with any payloads, by a writer without an error
  -- to a log of whole entries, and wherever the run stops: the file that is left scans to the old
  -- entries and then those whose append returned success, with the size of these as valid bytes; if
  -- the process stopped inside an append, its whole entry may follow them.
  pub recovered-run_appends :
      (script : List IoOutcome) (w : WalWriter) (old ps : List Bytes)
      → All IsPayload old
      → w.file ≡ log_bytes old []
      → is_ok w.error ≡ true
      → let r : Run = run_appends script w old ps in
        (recovered r.writer.file ≡ some (r.acknowledged, log_size r.acknowledged))
        ⊎ ((p : Bytes) × (r.in_flight ≡ some p)
            × (recovered r.writer.file
                ≡ some (r.acknowledged ++ p ∷ [], log_size (r.acknowledged ++ p ∷ []))))
  recovered-run_appends script w old ps valid file good =
      let start : Holds old w = record {
        log = record { payloads = valid; torn = []; file = file; ends = scan-nothing };
        clean = λ e. refl;
      } in
      elim (Left-run script w old ps start) [
        | inl left ↦ inl (Left-recovered left)
        | inr (p, here, left) ↦ inr (p, here, Left-recovered left)
      ]
