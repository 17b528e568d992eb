-- ===== src/NasSecurity/Counts.antt =====
-- How NASDecode follows the count of the sender.
use free5gc_workspace.Prelude.{
  ℕ, ◌+◌, ◌*◌, ◌%◌, ◌^◌, ◌≡◌, ◌<◌, ◌≤◌, inl, inr, refl, ap, ◌∙◌, Bool, false, Bool-cases, ltb,
  ltb→lt, ◌==◌, List, ◌∷◌, some, if◌then◌else◌, arith,
}
use free5gc_workspace.Prelude.Run
use free5gc_workspace.Prelude.Run.{>>=-keeps, gives}
use free5gc_workspace.NasSecurity.{NasLib, RanUeContext, calls, asks, changes, on_ue}
use free5gc_workspace.NasSecurity.Decode.{
  receive_count, received, received_mac_of, decrypted, header_kind, decode_protected, nas_decode,
}
use free5gc_workspace.NasSecurity.Keeps.{calls-keeps, maybe_asks-keeps}
use free5gc_workspace.NasSecurity.Mac.{protected}

-- A count of the library is 24 bits: an overflow of 16 bits and a sequence number of 8.
pub record IsCount (lib : NasLib) : Type 0 where
  pub sqn-lt : (c : lib.Count) → lib.sqn c < 256
  pub overflow-lt : (c : lib.Count) → lib.overflow c < 2 ^ 16
  pub get_parts : (c : lib.Count) → lib.get c ≡ lib.overflow c * 256 + lib.sqn c
  pub sqn-set_sqn : (c : lib.Count) (s : ℕ) → s < 256 → lib.sqn (lib.set_sqn c s) ≡ s
  pub overflow-set_sqn : (c : lib.Count) (s : ℕ) → lib.overflow (lib.set_sqn c s) ≡ lib.overflow c
  pub overflow-set_overflow :
      (c : lib.Count) (o : ℕ) → o < 2 ^ 16 → lib.overflow (lib.set_overflow c o) ≡ o

receive_count_value :
    (lib : NasLib)
    → IsCount lib
    → (c : lib.Count) (s : ℕ) → s < 256
    → lib.get (receive_count lib s c)
      ≡ (if ltb s (lib.sqn c) then (lib.overflow c + 1) % 2 ^ 16 else lib.overflow c) * 256 + s
unfolding receive_count
receive_count_value lib laws c s h =
    let later =
      if ltb s (lib.sqn c) then lib.set_overflow c ((lib.overflow c + 1) % 2 ^ 16) else c in
    laws.get_parts (lib.set_sqn later s)
    ∙ ap (λ o. o * 256 + lib.sqn (lib.set_sqn later s)) (laws.overflow-set_sqn later s ∙ overflowed)
    ∙ ap
        (λ q.
          (if ltb s (lib.sqn c) then (lib.overflow c + 1) % 2 ^ 16 else lib.overflow c) * 256 + q)
        (laws.sqn-set_sqn later s h)
  where
    overflowed :
        lib.overflow
          (if ltb s (lib.sqn c) then lib.set_overflow c ((lib.overflow c + 1) % 2 ^ 16) else c)
        ≡ (if ltb s (lib.sqn c) then (lib.overflow c + 1) % 2 ^ 16 else lib.overflow c)
    overflowed = elim (Bool-cases (ltb s (lib.sqn c))) [
      | inl e ↦ rw e (laws.overflow-set_overflow c ((lib.overflow c + 1) % 2 ^ 16) (omega arith))
      | inr e ↦ rw e refl
    ]

estimate :
    (o s n : ℕ)
    → o < 2 ^ 16
    → s < 256
    → n < 2 ^ 24
    → o * 256 + s ≤ n
    → n < o * 256 + s + 256
    → (if ltb (n % 256) s then (o + 1) % 2 ^ 16 else o) * 256 + n % 256 ≡ n
estimate o s n ho hs hn low high = elim (Bool-cases (ltb (n % 256) s)) [
  | inl e ↦ let below : n % 256 < s = ltb→lt (n % 256) s e in rw e (omega arith)
  | inr e ↦ let above : s ≤ n % 256 = not_below s (n % 256) e in rw e (omega arith)
]
  where
    not_below : (s q : ℕ) → ltb q s ≡ false → s ≤ q
    not_below s q e = ground arith

receive_count_follows :
    (lib : NasLib)
    → IsCount lib
    → (c : lib.Count) (n : ℕ) → n < 2 ^ 24
    → lib.get c ≤ n
    → n < lib.get c + 256
    → lib.get (receive_count lib (n % 256) c) ≡ n
receive_count_follows lib laws c n bound low high =
    let parts = laws.get_parts c in
    receive_count_value lib laws c (n % 256) (omega arith)
    ∙ estimate (lib.overflow c) (lib.sqn c) n (laws.overflow-lt c) (laws.sqn-lt c) bound
        (rw parts at low) (rw parts at high)

-- What is done after the count has been set, whatever it comes to, keeps the UE.
decode_protected-keeps :
    (lib : NasLib) (t number : ℕ) (ciphered : Bool) (body : List ℕ) (ue : RanUeContext lib)
    → (decode_protected lib t (some (ciphered, false)) number body ue).0
      ≡ received lib false number ue
unfolding decode_protected asks changes Run.◌>>=◌ Run.◌>>◌ gives
decode_protected-keeps lib t number ciphered body ue =
    let after = received lib false number ue in
    >>=-keeps (asks lib (received_mac_of lib (number ∷ body))) _ after
      (calls-keeps lib (received_mac_of lib (number ∷ body) after) after)
      (λ mac32.
        >>=-keeps (if ciphered then asks lib (decrypted lib body) else gives body) _ after
          (maybe_asks-keeps lib ciphered (decrypted lib body) body after)
          (λ plain.
            >>=-keeps (calls lib (lib.plain_nas_decode plain)) _ after
              (calls-keeps lib (lib.plain_nas_decode plain) after) (λ msg. refl)))

-- Where the UE's downlink count is at most the count `n` of the sender and fewer than 256 behind it, a
-- message with the number of that count, of a protected header type that begins no new context and under
-- an algorithm other than the null one, leaves the UE with the count `n`, whatever else becomes of it.
pub nas_decode_follows :
    (lib : NasLib) (ue : RanUeContext lib) (security_header_type n epd kind : ℕ)
    (mac : ℕ × ℕ × ℕ × ℕ) (body : List ℕ) (ciphered : Bool)
    → IsCount lib
    → (security_header_type == lib.plain_nas) ≡ false
    → (ue.integrity_alg == lib.alg_integrity_nia0) ≡ false
    → header_kind lib (lib.get_security_header_type (protected epd kind mac (n % 256) body) % 16)
      ≡ some (ciphered, false)
    → n < 2 ^ 24
    → lib.get ue.dl_count ≤ n
    → n < lib.get ue.dl_count + 256
    → (ue' : RanUeContext lib) × ((nas_decode lib
          (some ue)
          security_header_type
          (some (protected epd kind mac (n % 256) body))).0
        ≡ some ue')
      × (lib.get ue'.dl_count ≡ n)
unfolding nas_decode on_ue received
nas_decode_follows lib ue security_header_type n epd kind (m0, m1, m2, m3) body ciphered laws
      secured alg kinds bound low high =
    let t =
      lib.get_security_header_type (protected epd kind (m0, m1, m2, m3) (n % 256) body) % 16 in
    (
      received lib false (n % 256) ue,
      rw (secured, alg, kinds) (ap some (decode_protected-keeps lib t (n % 256) ciphered body ue)),
      receive_count_follows lib laws ue.dl_count n bound low high,
    )
