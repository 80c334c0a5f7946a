-- ===== src/Sender/Thread/Codes.antt =====
-- The table of error codes of a worker.
use udppingpong.Base.{
  ℕ, zero, suc, ◌+◌, ◌%◌, ◌<◌, ◌≡◌, refl, some, List, [], ◌∷◌, arith, ltb, ◌==◌, if◌then◌else◌,
  length, length-modify, get_or, modify, ap, ◌∙◌,
}
use udppingpong.Base.Int.{pos}
use udppingpong.Base.Word.{word_mod, add64}
use udppingpong.Sender.Thread.{
  SenderThread, Sent, sent, failed, SendAnswers, error_codes, count_sent, fill, send_packet,
  send_packets, get_counter_error_code,
}
use udppingpong.Sender.Thread.Sending.{is_error, tally}

get_or-modify :
    (xs : List ℕ) (i j : ℕ) (f : ℕ → ℕ)
    → j < length xs
    → get_or (modify xs i f) j 0 ≡ (if i == j then f (get_or xs j 0) else get_or xs j 0)
get_or-modify [] i j f h = elim h [ ]
get_or-modify (x ∷ xs) zero zero f h = refl
get_or-modify (x ∷ xs) zero (suc j) f h = ground arith
get_or-modify (x ∷ xs) (suc i) zero f h = ground arith
get_or-modify (x ∷ xs) (suc i) (suc j) f h = ground (arith, get_or-modify xs i j f)

-- What an answer makes of the table.
abbrev codes_after : Sent → List ℕ → List ℕ
codes_after (sent n) codes = codes
codes_after (failed errno) codes =
    if ltb errno error_codes then modify codes errno (λ n. add64 n 1) else codes

length-codes_after : (s : Sent) (codes : List ℕ) → length (codes_after s codes) ≡ length codes
length-codes_after (sent n) codes = refl
length-codes_after (failed errno) codes = ground (arith, length-modify codes errno (λ n. add64 n 1))

get_or-codes_after :
    (code : ℕ) (s : Sent) (codes : List ℕ)
    → code < error_codes
    → length codes ≡ error_codes
    → get_or (codes_after s codes) code 0 % word_mod
      ≡ (get_or codes code 0 + (if is_error code s then 1 else 0)) % word_mod
unfolding add64
get_or-codes_after code (sent n) codes h l = ground arith
get_or-codes_after code (failed errno) codes h l =
    ground (arith, get_or-modify codes errno code (λ n. add64 n 1))

module _ {D : Type 0} where
  codes-count_sent :
      (s : Sent) (t : SenderThread D)
      → (count_sent s t).counter_errorcodes ≡ codes_after s t.counter_errorcodes
  unfolding count_sent
  codes-count_sent (sent n) t = ground arith
  codes-count_sent (failed errno) t = refl

  codes-send_packet :
      (a : SendAnswers D) (t : SenderThread D)
      → (send_packet a t).0.counter_errorcodes ≡ codes_after a.send t.counter_errorcodes
  unfolding send_packet
  codes-send_packet a t = codes-count_sent a.send (record t { buffer = fill a t })

  codes-send_packets :
      (code n i : ℕ) (answers : ℕ → SendAnswers D) (t : SenderThread D)
      → code < error_codes
      → length t.counter_errorcodes ≡ error_codes
      → let codes = (send_packets n i answers t).0.counter_errorcodes in
        (length codes ≡ error_codes)
        × (get_or codes code 0 % word_mod
            ≡ (get_or t.counter_errorcodes code 0 + tally (is_error code) n i answers) % word_mod)
  unfolding send_packets
  codes-send_packets code zero i answers t h l = omega arith
  codes-send_packets code (suc n) i answers t h l =
      let u = (send_packet (answers i) t).0 in
      let same = codes-send_packet (answers i) t in
      let s = (answers i).send in
      let rest =
        codes-send_packets code n (i + 1) answers u h
          (ap length same ∙ length-codes_after s t.counter_errorcodes ∙ l) in
      (
        rest.0,
        omega (
          arith,
          rest.1,
          get_or-codes_after code s t.counter_errorcodes h l,
          ap (λ (cs : List ℕ). get_or cs code 0) same,
        ),
      )

  -- `getCounterErrorCode` tells, modulo 2 ^ 64, how often each error code below 255 occurred in n
  -- calls of `sendPacket` since the table was cleared; greater codes are not told apart and give 0.
  pub send_packets_codes :
      (code n i : ℕ) (answers : ℕ → SendAnswers D) (t : SenderThread D) (count : ℕ)
      → length t.counter_errorcodes ≡ error_codes
      → (code < error_codes → get_or t.counter_errorcodes code 0 ≡ 0)
      → get_counter_error_code (pos code) (send_packets n i answers t).0 ≡ some count
      → count % word_mod
        ≡ (if ltb code error_codes then tally (is_error code) n i answers else 0) % word_mod
  unfolding get_counter_error_code
  send_packets_codes code n i answers t count l clear e =
      ground (arith, clear, codes-send_packets code n i answers t)
