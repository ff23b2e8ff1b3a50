-- ===== src/Posemesh/Reading.antt =====
-- How the generated accessors read what a lawful builder made.
use mathlib.Core.Path.{subst}
use libp2p_experiment.FlatBuffers.Framed.{Framed}
use libp2p_experiment.Base.{
  ◌<◌, ◌++◌, [], none, ℕ, ◌+◌, ◌*◌, ◌≡◌, Option, some, false, ltb, length, drop, arith, nat_eq,
}
use libp2p_experiment.Base.Effects.{ok}
use libp2p_experiment.Os.{Bytes}
use libp2p_experiment.FlatBuffers.{BuilderApi, SizePrefix, FlatBuffers, Table, uoffset}
use libp2p_experiment.FlatBuffers.Built.{Built, Object, ReadsObject, Field, at, Written, Reads}
use libp2p_experiment.Posemesh.{get_root_as, get_size_prefixed_root_as, bytes_field}

module _ (fb : FlatBuffers) where
  -- Where the root of a buffer can be read, the reader of size-prefixed messages finds it.
  pub root_found :
      (bytes : Bytes) (n : ℕ)
      → ltb (length bytes) fb.size_uint32 ≡ false
      → fb.get_uoffset (drop fb.size_uint32 bytes) ≡ ok n
      → get_size_prefixed_root_as fb bytes 0
        ≡ ok (record { bytes = bytes; pos = uoffset (n + fb.size_uint32) })
  unfolding get_size_prefixed_root_as
  root_found bytes n fits root = ground (arith, fits, root)

  -- A field of bytes in the slot `k`.
  pub bytes_field-at :
      (w : Written) (t : Table) (k o : ℕ) (s : Bytes) (f : Option Field)
      → Reads fb w t k f
      → f ≡ some (at o)
      → w.strings o ≡ some s
      → bytes_field fb (4 + 2 * k) t ≡ s
  unfolding bytes_field
  bytes_field-at w t k o s f reads e held =
      let r = subst (Reads fb w t k) e reads s held in ground (arith, r.present, r.content)

-- What the accessors find in the table of an object with the fields `f`.
pub record Contents (fb : FlatBuffers) (w : Written) (f : Object) (t : Table) : Type 0 where
  pub field : (k : ℕ) → k < 64 → Reads fb w t k (f k)
  pub object : (k o : ℕ) → k < 64 → f k ≡ some (at o) → ReadsObject fb w t k o

module _ (fb : FlatBuffers) (w : Written) (f : Object) (t : Table) (c : Contents fb w f t) where
  pub bytes_field-Contents :
      (k o : ℕ) (s : Bytes)
      → k < 64
      → f k ≡ some (at o)
      → w.strings o ≡ some s
      → bytes_field fb (4 + 2 * k) t ≡ s
  bytes_field-Contents k o s h e held = bytes_field-at fb w t k o s (f k) (c.field k h) e held

  pub bytes_field-absent : (k : ℕ) → k < 64 → f k ≡ none → bytes_field fb (4 + 2 * k) t ≡ []
  unfolding bytes_field
  bytes_field-absent k h e =
      let absent : fb.offset t (4 + 2 * k) ≡ 0 = subst (Reads fb w t k) e (c.field k h) in
      ground (arith, absent)

-- The message of the object that a builder has open.
module _ (fb : FlatBuffers) (api : BuilderApi) (B : Built fb api) (b : api.Builder) where
  abbrev pub ended : api.Builder
  ended = (api.end_object b).1

  abbrev pub message : Bytes
  message = api.finished_bytes (api.finish_size_prefixed (api.end_object b).0 ended)

  -- Read with its size.
  pub record ReadsSized (t : Table) : Type 0 where
    pub readable : get_size_prefixed_root_as fb message 0 ≡ ok t
    pub contents : Contents fb (B.written ended) (B.fields b) t

  pub message-ReadsSized : (t : Table) × ReadsSized t
  message-ReadsSized =
      let (fits, (n, (root, reads))) =
        B.finished ended (api.end_object b).0 (B.fields b) (B.ended b) in
      (
        record { bytes = message; pos = uoffset (n + fb.size_uint32) },
        record {
          readable = root_found fb message n fits root;
          contents = record { field = λ k h. (reads k h).0; object = λ k o h e. (reads k h).1 o e };
        },
      )

  -- Read behind its size, as it comes over a stream.
  pub record ReadsBare (P : SizePrefix fb) (buf : Bytes) (t : Table) : Type 0 where
    pub with_size : message ≡ P.prefix (length buf) ++ buf
    pub readable : get_root_as fb buf 0 ≡ ok t
    pub contents : Contents fb (B.written ended) (B.fields b) t

  bare_root :
      (buf : Bytes) (n : ℕ)
      → fb.get_uoffset buf ≡ ok n
      → get_root_as fb buf 0 ≡ ok (record { bytes = buf; pos = uoffset n })
  unfolding get_root_as
  bare_root buf n root = ground (arith, root)

  pub message-ReadsBare :
      (P : SizePrefix fb) → Framed fb api B P → (buf : Bytes) × ((t : Table) × ReadsBare P buf t)
  message-ReadsBare P F =
      let (buf, (e, (n, (root, reads)))) =
        F.framed ended (api.end_object b).0 (B.fields b) (B.ended b) in
      (
        buf,
        (
          record { bytes = buf; pos = uoffset n },
          record {
            with_size = e;
            readable = bare_root buf n root;
            contents = record {
              field = λ k h. (reads k h).0;
              object = λ k o h e. (reads k h).1 o e;
            };
          },
        ),
      )
