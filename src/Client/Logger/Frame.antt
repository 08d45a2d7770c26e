-- ===== src/Client/Logger/Frame.antt =====
-- What a generated function puts into the buffer that it sends.
use distributed_logger.Base.{
  ℕ, ◌+◌, ◌-◌, ◌%◌, ◌^◌, ◌≤◌, ◌<◌, min, ◌≡◌, refl, sym, ap, ap₂, ◌∙◌, subst, some, List, [], ◌∷◌,
  ◌++◌, append-nil, append_assoc, arith, length, take, drop, All, length-append, length-take,
  drop-append, take_all, overwrite, take-overwrite, mod16, mod32, add64, be_bytes, length-be_bytes,
}
use distributed_logger.Client.Buffer.{IBufferWrapper}
use distributed_logger.Client.Logger.{
  length, ◌∷◌, be_bytes, ℕ, List, Arg, uint64, string, other, total_length, encode_uint64,
  encode_string, encode, encode_all, log_event, to_size_t,
}
use distributed_logger.Client.Logger.Wire.{
  wire_arg, wire_args, payload, IsCounted, total_length_lem,
}

module _ (I : IBufferWrapper) where
  open I use {
    Buffer, IsValid, make, get_data, get_capacity, get_read_offset, get_write_offset,
    set_write_offset, write_data, make-IsValid, capacity_make, offset_make, read_make, length_data,
    capacity_lt, offset_le, set-IsValid, data_set, capacity_set, read_set, offset_set, write_lem,
  }

  -- A valid buffer of capacity `cap` in which `pre` stands before the write offset.
  record Holds (cap : ℕ) (pre : List ℕ) (b : Buffer) : Type 0 where
    valid : IsValid b
    capacity : get_capacity b ≡ cap
    offset : get_write_offset b ≡ length pre
    unread : get_read_offset b ≡ 0
    before : take (length pre) (get_data b) ≡ pre

  -- A write that fits extends what the buffer holds by the bytes written.
  write-Holds :
      (cap : ℕ) (pre bytes : List ℕ) (b : Buffer)
      → Holds cap pre b
      → length pre + length bytes ≤ cap
      → (b' : Buffer) × (write_data bytes (length bytes) b ≡ some (length bytes, b'))
        × Holds cap (pre ++ bytes) b'
  write-Holds cap pre bytes b h fits = (
    r.0,
    subst (λ m. write_data bytes (length bytes) b ≡ some (m, r.0)) all r.1,
    record {
      valid = r.6;
      unread = r.5 ∙ h.unread;
      capacity = r.4 ∙ h.capacity;
      offset = omega (arith, r.3, all, h.offset, length-append pre bytes);
      before =
          rw (data_eq, length-append pre bytes)
            (take-overwrite (get_data b) (length pre) bytes
                (omega (arith, length_data b h.valid, h.capacity))
              ∙ ap (λ z. z ++ bytes) h.before);
    },
  )
    where
      k : ℕ
      k = min (length bytes) (get_capacity b - get_write_offset b)

      all : k ≡ length bytes
      all = omega (arith, h.capacity, h.offset)

      r :
          (b' : Buffer) × (write_data bytes (length bytes) b ≡ some (k, b'))
          × (get_data b' ≡ overwrite (get_data b) (get_write_offset b) (take k bytes))
          × (get_write_offset b' ≡ get_write_offset b + k)
          × (get_capacity b' ≡ get_capacity b)
          × (get_read_offset b' ≡ get_read_offset b)
          × IsValid b'
      r =
          write_lem bytes (length bytes) b h.valid (omega arith)
            (omega (arith, capacity_lt b h.valid, h.capacity, h.offset))

      data_eq : get_data r.0 ≡ overwrite (get_data b) (length pre) bytes
      data_eq = r.2 ∙ ap₂ (overwrite (get_data b)) h.offset (take_all k bytes (omega (arith, all)))

  -- A word is written whole.
  encode_uint64-Holds :
      (cap : ℕ) (pre : List ℕ) (v : ℕ) (b : Buffer)
      → Holds cap pre b
      → length pre + 8 ≤ cap
      → (w : ℕ) × (b' : Buffer) × (encode_uint64 I v b ≡ some (w, b'))
        × Holds cap (pre ++ be_bytes 8 v) b'
  unfolding encode_uint64
  encode_uint64-Holds cap pre v b h fits =
      let e : length (be_bytes 8 v) ≡ 8 = length-be_bytes 8 v in
      let (b', eq, h') = write-Holds cap pre (be_bytes 8 v) b h (omega (arith, e)) in
      (8 % mod32, b', rw (subst (λ n. write_data (be_bytes 8 v) n b ≡ some (n, b')) e eq), h')

  encode_string-Holds :
      (cap : ℕ) (pre s : List ℕ) (b : Buffer)
      → Holds cap pre b
      → length pre + (2 + length s) ≤ cap
      → (w : ℕ) × (b' : Buffer) × (encode_string I s b ≡ some (w, b'))
        × Holds cap (pre ++ wire_arg (string s)) b'
  unfolding encode_string
  encode_string-Holds cap pre s b h fits =
      let size : List ℕ = be_bytes 2 (length s % mod16) in
      let e : length size ≡ 2 = length-be_bytes 2 (length s % mod16) in
      let (b', eq, h') = write-Holds cap pre size b h (omega (arith, e)) in
      let (b'', eq', h'') =
        write-Holds cap (pre ++ size) s b' h' (omega (arith, e, length-append pre size)) in
      (
        add64 2 (length s) % mod32,
        b'',
        rw (subst (λ n. write_data size n b ≡ some (n, b')) e eq, eq'),
        subst (λ l. Holds cap l b'') (append_assoc pre size s) h'',
      )

  encode-Holds :
      (cap : ℕ) (pre : List ℕ) (a : Arg) (b : Buffer)
      → Holds cap pre b
      → length pre + length (wire_arg a) ≤ cap
      → (w : ℕ) × (b' : Buffer) × (encode I a b ≡ some (w, b')) × Holds cap (pre ++ wire_arg a) b'
  unfolding encode
  encode-Holds cap pre (uint64 v) b h fits =
      encode_uint64-Holds cap pre v b h (omega (arith, length-be_bytes 8 v))
  encode-Holds cap pre (string s) b h fits = encode_string-Holds cap pre s b h (
      omega (
        arith,
        length-append (be_bytes 2 (length s % mod16)) s,
        length-be_bytes 2 (length s % mod16),
      ))
  encode-Holds cap pre (other v) b h fits =
      encode_uint64-Holds cap pre v b h (omega (arith, length-be_bytes 8 v))

  encode_all-Holds :
      (cap : ℕ) (pre : List ℕ) (args : List Arg) (b : Buffer)
      → Holds cap pre b
      → length pre + length (wire_args args) ≤ cap
      → (b' : Buffer) × (encode_all I args b ≡ some b') × Holds cap (pre ++ wire_args args) b'
  unfolding encode_all
  encode_all-Holds cap pre [] b h fits =
      (b, refl, subst (λ l. Holds cap l b) (sym (append-nil pre)) h)
  encode_all-Holds cap pre (a ∷ args) b h fits =
      let e = length-append (wire_arg a) (wire_args args) in
      let (w, b', eq, h') = encode-Holds cap pre a b h (omega (arith, e)) in
      let (b'', eq', h'') =
        encode_all-Holds cap (pre ++ wire_arg a) args b' h'
          (omega (arith, e, length-append pre (wire_arg a))) in
      (
        b'',
        rw (eq, eq'),
        subst (λ l. Holds cap l b'') (append_assoc pre (wire_arg a) (wire_args args)) h'',
      )

  -- A generated function whose arguments the generator counts, with a frame below 2 GB, builds a
  -- buffer of exactly the size of the frame. Behind the four bytes of the length word, which `send`
  -- fills in, stands the event as eight bytes and each argument in its wire form, and nothing else; the
  -- buffer is written to its end, and nothing of it is read.
  pub log_event_lem :
      (event : ℕ) (args : List Arg)
      → All IsCounted args
      → 4 + length (payload event args) < 2 ^ 31
      → (b : Buffer) × (log_event I event args ≡ some b)
        × IsValid b
        × (get_capacity b ≡ 4 + length (payload event args))
        × (get_write_offset b ≡ get_capacity b)
        × (get_read_offset b ≡ 0)
        × (drop 4 (get_data b) ≡ payload event args)
  unfolding log_event
  log_event_lem event args c small =
      let (w, b1, eq1, h1) =
        encode_uint64-Holds cap pre event start holds (omega (arith, four, len)) in
      let (b2, eq2, h2) =
        encode_all-Holds cap (pre ++ be_bytes 8 event) args b1 h1 (
          omega
            (arith, four, len, length-append pre (be_bytes 8 event), length-be_bytes 8 event)) in
      (
        b2,
        rw (size, eq1, eq2),
        h2.valid,
        h2.capacity,
        omega (arith, h2.offset, h2.capacity, total),
        h2.unread,
        ap (drop 4) (
              sym (
                take_all (length whole) (get_data b2)
                  (omega (arith, length_data b2 h2.valid, h2.capacity, total)))
              ∙ (h2.before ∙ append_assoc pre (be_bytes 8 event) (wire_args args)))
            ∙ drop-append 4 pre (payload event args) (omega (arith, four)),
      )
    where
      cap : ℕ
      cap = 4 + length (payload event args)

      size : to_size_t (total_length args) ≡ cap
      size = ground (arith, total_length_lem event args c small)

      start : Buffer
      start = set_write_offset 4 (make cap)

      made : IsValid (make cap)
      made = make-IsValid cap (omega arith)

      valid : IsValid start
      valid = set-IsValid 4 (make cap) made (omega (arith, capacity_make cap))

      room : get_capacity start ≡ cap
      room = capacity_set 4 (make cap) ∙ capacity_make cap

      pre : List ℕ
      pre = take 4 (get_data start)

      four : length pre ≡ 4
      four = omega (arith, length-take 4 (get_data start), length_data start valid, room)

      len : length (payload event args) ≡ 8 + length (wire_args args)
      len =
          omega (arith, length-append (be_bytes 8 event) (wire_args args), length-be_bytes 8 event)

      holds : Holds cap pre start
      holds = record {
        valid = valid;
        capacity = room;
        offset = omega (arith, offset_set 4 (make cap), four);
        unread = read_set 4 (make cap) ∙ read_make cap;
        before = rw four;
      }

      whole : List ℕ
      whole = (pre ++ be_bytes 8 event) ++ wire_args args

      total : length whole ≡ cap
      total = omega (
        arith,
        four,
        len,
        length-append (pre ++ be_bytes 8 event) (wire_args args),
        length-append pre (be_bytes 8 event),
        length-be_bytes 8 event,
      )
