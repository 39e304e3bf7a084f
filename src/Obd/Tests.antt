-- ===== src/Obd/Tests.antt =====
-- Runs on frames, and the theorems at concrete buffers.
use footprints_ev.Base.{
  ℕ, ◌≡◌, ◌≢◌, ◌↔◌, refl, Bool, true, false, List, [], ◌∷◌, ◌++◌, arith, drop, replicate, some,
}
use footprints_ev.CString.{strlen, strstr}
use footprints_ev.Hex.{str2hex}
use footprints_ev.Obd.{
  Obd, finished, fault, out_of_fuel, have_escope, filter_escape, pair_at, check_sum,
}
use footprints_ev.Obd.CheckSum.{check_sum-zero}
use footprints_ev.Hex.Digits.{upper, lower, str2hex-digits}
use footprints_ev.Obd.Plain.{filter_escape-plain}
use footprints_ev.Obd.Convert.{write_at}
use footprints_ev.Obd.Bounds.{IsMessage, IsSized}
use footprints_ev.Obd.Endless.{
  HasFrame, filter_escape-halts, filter_escape-endless, filter_escape-safe,
}
use footprints_ev.Obd.Escape.{frame, chars}
use footprints_ev.Obd.RoundTrip.{Holds, filter_escape-frame}

-- command 2, an escaped EE in the client's id
abbrev payload : List ℕ
payload = 0x02 ∷ 0x12 ∷ 0xEE ∷ 0x56 ∷ 0x78 ∷ 0x20 ∷ []

abbrev text : List ℕ
text =
    b'B' ∷ b'B' ∷ b'0' ∷ b'2' ∷ b'1' ∷ b'2' ∷ b'A' ∷ b'A' ∷ b'E' ∷ b'E' ∷ b'5' ∷ b'6' ∷ b'7' ∷ b'8'
    ∷ b'2' ∷ b'0' ∷ b'E' ∷ b'E' ∷ []

abbrev received : Obd
received = record {
  data_bytes = text ++ (0 ∷ replicate 237 0);
  data_length = 18;
  hex = replicate 256 0;
  id = 0;
}

-- 253 zeros between the markers do not fit: 251 do, and make 255 characters
abbrev longest : Obd
longest = record {
  data_bytes = b'B' ∷ b'B' ∷ (replicate 251 b'0' ++ (b'E' ∷ b'E' ∷ 0 ∷ []));
  data_length = 255;
  hex = replicate 256 0;
  id = 0;
}

text-frame : chars (frame payload) ≡ text
unfolding chars frame
text-frame = refl

received-Holds : Holds payload (replicate 237 0) received
unfolding chars frame
received-Holds = record {
  text = refl;
  counted = refl;
  fits = omega arith;
  sized = record { data_size = refl; hex_size = refl };
}

filter_escape-frame_example :
    filter_escape 128 received
    ≡ finished
        (true, record received { hex = (0xBB ∷ payload ++ (0xEE ∷ [])) ++ drop 8 received.hex })
filter_escape-frame_example =
    filter_escape-frame payload (replicate 237 0) received (omega arith) received-Holds

received-IsMessage : IsMessage received
unfolding strlen
received-IsMessage = record {
  sized = record { data_size = refl; hex_size = refl };
  small = omega arith;
  text = refl;
}

longest-IsMessage : IsMessage longest
unfolding strlen
longest-IsMessage = record {
  sized = record { data_size = refl; hex_size = refl };
  small = omega arith;
  text = refl;
}

longest-HasFrame : HasFrame longest 0 253
unfolding strstr
longest-HasFrame = record { begins = refl; ends = refl; ordered = omega arith }

received-HasFrame : HasFrame received 0 8
unfolding strstr
received-HasFrame = record { begins = refl; ends = refl; ordered = omega arith }

filter_escape-halts_example :
    (done : Bool) × (o' : Obd) × (filter_escape 128 received ≡ finished (done, o'))
    × IsSized o'
    × ((done ≡ true) ↔ ((b : ℕ) × (e : ℕ) × HasFrame received b e))
filter_escape-halts_example = filter_escape-halts received received-IsMessage (omega arith)

filter_escape-endless_example : filter_escape 1000 longest ≡ out_of_fuel
filter_escape-endless_example =
    filter_escape-endless longest 0 253 longest-IsMessage refl longest-HasFrame 1000

filter_escape-safe_example : filter_escape 300 longest ≢ fault
filter_escape-safe_example = filter_escape-safe longest 300 longest-IsMessage

-- BB, command 2, a byte and EE
abbrev brief : Obd
brief = record {
  data_bytes = b'B' ∷ b'B' ∷ b'0' ∷ b'2' ∷ b'1' ∷ b'F' ∷ b'E' ∷ b'E' ∷ 0 ∷ replicate 247 0;
  data_length = 8;
  hex = replicate 256 0;
  id = 0;
}

brief-HasFrame : HasFrame brief 0 6
unfolding strstr
brief-HasFrame = record { begins = refl; ends = refl; ordered = omega arith }

filter_escape-plain_example :
    filter_escape 128 brief
    ≡ finished (true, record brief { hex = write_at brief.hex 0 (0xBB ∷ 0x02 ∷ 0x1F ∷ 0xEE ∷ []) })
unfolding chars have_escope strstr
filter_escape-plain_example =
    filter_escape-plain brief (0xBB ∷ 0x02 ∷ 0x1F ∷ 0xEE ∷ []) (replicate 247 0) 6 (omega arith)
      refl refl (omega arith) brief-HasFrame refl

-- An escape in mixed case is not found, and yet read as one.
mixed_case : (have_escope (b'A' ∷ b'a' ∷ b'E' ∷ b'E' ∷ 0 ∷ []) ≡ false) × (str2hex b'A' b'a' ≡ 0xAA)
unfolding have_escope strstr str2hex
mixed_case = (refl, refl)

brief-sum : pair_at brief 4 ≡ some 0x1F
unfolding str2hex
brief-sum = refl

-- the sum in front of EE is 31: OBD_check_sum does not accept it
check_sum-zero_example : check_sum 1 brief ≡ finished false
unfolding strstr
check_sum-zero_example =
    check_sum-zero brief 0 0 6 0x1F brief-HasFrame.begins brief-HasFrame.ends (omega arith)
      brief-sum

str2hex-digits_example :
    (str2hex (upper 0xC) (upper 0x5) ≡ 0xC5) × (str2hex (lower 0xC) (lower 0x5) ≡ 0xC5)
str2hex-digits_example = str2hex-digits 0xC5 (omega arith)
