-- ===== src/Nitro/ChannelStorage.antt =====
-- packages/nitro-protocol/src/contract/channel-storage.ts: the word that the contract stores of a channel.
-- The text of 32 bytes is the number that it spells, so that a slice of it is a quotient or a remainder.
-- keccak256 of the encoded preimage and the hashes of a state and of an outcome are fields of `Hashes`.
use statechannels.Common.{
  ℕ, ◌+◌, ◌*◌, ◌%◌, ◌<◌, ◌≡◌, refl, Bool, true, false, not, Option, none, some, ◌==◌, ltb,
  if◌then◌else◌, arith,
}
use statechannels.Common.Results.{
  Result, ok, err, ◌>>=◌, ◌>>◌, throw_if, value_out_of_range, incorrect_length,
}
use Prim.Native.Nat.{◌/◌}

pub record Hashes (S O : Type 0) : Type 0 where
  pub hash_state : S → ℕ
  pub hash_outcome : O → ℕ
  pub hash_preimage : ℕ → ℕ → ℕ

-- `ChannelData`
pub record ChannelData (S O : Type 0) : Type 0 where
  pub turn_num_record : ℕ
  pub finalizes_at : ℕ
  pub state : Option S
  pub outcome : Option O

-- What `parseStatus` returns
pub record ParsedStatus : Type 0 where
  pub turn_num_record : ℕ
  pub finalizes_at : ℕ
  pub fingerprint : ℕ

-- The words of 6, 20 and 32 bytes
abbrev pub two_to_48 : ℕ
two_to_48 = 281474976710656

abbrev pub two_to_160 : ℕ
two_to_160 = 1461501637330902918203684832716283019655932542976

abbrev pub two_to_256 : ℕ
two_to_256 = 115792089237316195423570985008687907853269984665640564039457584007913129639936

-- The hash, or `HashZero` of an open channel and of what is missing
abbrev pub hash_unless_open : {A : Type 0} → Bool → (A → ℕ) → Option A → ℕ
hash_unless_open true hash a = 0
hash_unless_open false hash none = 0
hash_unless_open false hash (some a) = hash a

-- `hexDataSlice(keccak256(encodeFingerprintPreimage(data)), 12)`: the last 20 bytes
unfoldable pub fingerprint_of : {S O : Type 0} → Hashes S O → ChannelData S O → ℕ
fingerprint_of h d =
    let is_open = d.finalizes_at == 0 in
    h.hash_preimage (hash_unless_open is_open h.hash_state d.state)
      (hash_unless_open is_open h.hash_outcome d.outcome)
    % two_to_160

-- `hexZeroPad(hexlify(n), 6)`
abbrev pub padded_to_6 : ℕ → Result ℕ
padded_to_6 n = if ltb n two_to_48 then ok n else err value_out_of_range

-- `channelDataToStatus`
unfoldable pub channel_data_to_status : {S O : Type 0} → Hashes S O → ChannelData S O → Result ℕ
channel_data_to_status h d = do
  turn ← padded_to_6 d.turn_num_record
  finalizes ← padded_to_6 d.finalizes_at
  ok ((turn * two_to_48 + finalizes) * two_to_160 + fingerprint_of h d)

-- `parseStatus`. Of 32 bytes each 6 make a number that JavaScript holds.
unfoldable pub parse_status : ℕ → Result ParsedStatus
parse_status word = do
  throw_if (not (ltb word two_to_256)) incorrect_length
  ok (record {
    turn_num_record = word / two_to_160 / two_to_48;
    finalizes_at = word / two_to_160 % two_to_48;
    fingerprint = word % two_to_160;
  })

parts_of_word :
    (a b c : ℕ)
    → a < two_to_48
    → b < two_to_48
    → let word = (a * two_to_48 + b) * two_to_160 + c % two_to_160 in
      (word < two_to_256)
      × (word / two_to_160 / two_to_48 ≡ a)
      × (word / two_to_160 % two_to_48 ≡ b)
      × (word % two_to_160 ≡ c % two_to_160)
parts_of_word a b c h k = (omega arith, omega arith, omega arith, omega arith)

parse_status-parts :
    (word a b c : ℕ)
    → word < two_to_256
    → word / two_to_160 / two_to_48 ≡ a
    → word / two_to_160 % two_to_48 ≡ b
    → word % two_to_160 ≡ c
    → parse_status word ≡ ok (record { turn_num_record = a; finalizes_at = b; fingerprint = c })
unfolding parse_status
parse_status-parts word a b c whole turn time print =
    let valid : ltb word two_to_256 ≡ true = ground arith in rw (valid, turn, time, print) refl

-- A channel whose turn and time of finalization fit in 6 bytes has a word of 32 bytes, from which
-- `parseStatus` reads the turn, the time and the fingerprint.
pub parse_status-channel_data_to_status :
    {S O : Type 0} (h : Hashes S O) (d : ChannelData S O)
    → d.turn_num_record < two_to_48
    → d.finalizes_at < two_to_48
    → (word : ℕ) × (channel_data_to_status h d ≡ ok word)
      × (parse_status word
          ≡ ok (record {
            turn_num_record = d.turn_num_record;
            finalizes_at = d.finalizes_at;
            fingerprint = fingerprint_of h d;
          }))
unfolding channel_data_to_status fingerprint_of
parse_status-channel_data_to_status h d small early =
    let hashed =
      h.hash_preimage (hash_unless_open (d.finalizes_at == 0) h.hash_state d.state)
        (hash_unless_open (d.finalizes_at == 0) h.hash_outcome d.outcome) in
    let (whole, turn, time, print) =
      parts_of_word d.turn_num_record d.finalizes_at hashed small early in
    let t : ltb d.turn_num_record two_to_48 ≡ true = ground arith in
    let f : ltb d.finalizes_at two_to_48 ≡ true = ground arith in
    (
      (d.turn_num_record * two_to_48 + d.finalizes_at) * two_to_160 + fingerprint_of h d,
      rw (t, f) refl,
      parse_status-parts _ _ _ _ whole turn time print,
    )
