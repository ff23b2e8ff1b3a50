-- ===== src/App/Messages/Portals.antt =====
-- The portal that the application makes, on its way over one discovery node to another.
use libp2p_experiment.Base.{
  ℕ, ◌≡◌, ◌≢◌, ap, ◌∙◌, sym, String, none, some, [], ◌∷◌, ◌++◌, length, arith, if◌then◌else◌,
  nat_eq, string_eq,
}
use libp2p_experiment.Base.Dict
use libp2p_experiment.Base.Effects.{Result, ok, lift, pure, then_ok, handle-ok}
use libp2p_experiment.Os.{Bytes, FilePath, Fs}
use libp2p_experiment.FlatBuffers.{FlatBuffers, BuilderApi, SizePrefix, Table}
use libp2p_experiment.FlatBuffers.Built.{Built, at, float, is_zero}
use libp2p_experiment.FlatBuffers.Framed.{Framed}
use libp2p_experiment.FlatBuffers.Slots.{Slots, Fits, value, filled, fields-filled, written-filled}
use libp2p_experiment.Posemesh.{get_root_as}
use libp2p_experiment.Posemesh.Portal
use libp2p_experiment.Posemesh.Reading.{ended, message-ReadsBare, bytes_field-Contents}
use libp2p_experiment.Node.{PeerId}
use libp2p_experiment.Discovery.{Topic, portals, Directory, publish}
use libp2p_experiment.Discovery.Portals.{create_portal, receive_portal}
use libp2p_experiment.Discovery.Portals as Shared
use libp2p_experiment.Discovery.Portals.Exchange.{
  SamePortal, size-float, receive_portal-portal_message,
}
use libp2p_experiment.App.Messages.{portal_message}

-- A portal with this id, the name "portal" and this size, where -0.0 is read as 0.0.
pub record IsPortal (fb : FlatBuffers) (utf8 : String → Bytes) (size : ℕ) (id : String) (t : Table)
    : Type 0 where
  pub named : Portal.short_id fb t ≡ utf8 id
  pub default_name : Portal.default_name fb t ≡ utf8 "portal"
  pub sized : Portal.size fb t ≡ (if is_zero size then 0 else size)

IsPortal-SamePortal :
    (fb : FlatBuffers) (utf8 : String → Bytes) (size : ℕ) (id : String) (p t : Table)
    → IsPortal fb utf8 size id p
    → SamePortal fb p t
    → IsPortal fb utf8 size id t
IsPortal-SamePortal fb utf8 size id p t is same = record {
  named = same.same_id ∙ is.named;
  default_name = same.same_name ∙ is.default_name;
  sized = ground (arith, same.same_size, is.sized);
}

module _ (fb : FlatBuffers) (api : BuilderApi) (B : Built fb api) (five : ℕ) (id : String) where
  open api use {Builder, new_builder, create_string, start_object}

  abbrev with_id : Builder
  with_id = (create_string id new_builder).1

  abbrev id_offset : ℕ
  id_offset = (create_string id new_builder).0

  abbrev with_name : Builder
  with_name = (create_string "portal" with_id).1

  abbrev name_offset : ℕ
  name_offset = (create_string "portal" with_id).0

  abbrev slots : Slots
  slots = (1, float five) ∷ (2, at id_offset) ∷ (0, at name_offset) ∷ []

  abbrev portal : Builder
  portal = filled api slots (start_object 3 with_name)

  fits : Fits slots
  fits = (B.texts.created_not_zero id new_builder, (B.texts.created_not_zero "portal" with_id, tt))

  field : (j : ℕ) → B.fields portal j ≡ value slots j none
  field j =
      fields-filled fb api B slots (start_object 3 with_name) j fits
      ∙ ap (value slots j) (B.fields-start 3 j with_name)

  name_field : B.fields portal 0 ≡ some (at name_offset)
  name_field = ground (arith, field 0, fits.0, fits.1.0)

  id_field : B.fields portal 2 ≡ some (at id_offset)
  id_field = ground (arith, field 2, fits.0, fits.1.0)

  size_field : B.fields portal 1 ≡ (if is_zero five then none else some (float five))
  size_field = ground (arith, field 1, fits.0, fits.1.0)

  held :
      (o : ℕ) (s : Bytes)
      → (B.written with_name).strings o ≡ some s
      → (B.written (ended fb api B portal)).strings o ≡ some s
  held o s h = B.strings-end o s portal (
      ap (λ w. w.strings o)
        (written-filled fb api B slots (start_object 3 with_name) ∙ B.written-start 3 with_name)
      ∙ h)

  id_held : (B.written (ended fb api B portal)).strings id_offset ≡ some (B.utf8 id)
  id_held = held id_offset (B.utf8 id) (
      B.texts.created_keeps "portal" (B.utf8 id) id_offset with_id (B.texts.created id new_builder))

  name_held : (B.written (ended fb api B portal)).strings name_offset ≡ some (B.utf8 "portal")
  name_held = held name_offset (B.utf8 "portal") (B.texts.created "portal" with_id)

  -- What a discovery node makes of the message.
  pub record Asked (P : SizePrefix fb) (buf : Bytes) (t : Table) : Type 0 where
    pub with_size : portal_message api five id ≡ P.prefix (length buf) ++ buf
    pub readable : get_root_as fb buf 0 ≡ ok t
    pub is_portal : IsPortal fb B.utf8 five id t

  portal_message-Asked :
      (P : SizePrefix fb) → Framed fb api B P → (buf : Bytes) × ((t : Table) × Asked P buf t)
  unfolding portal_message Portal.short_id Portal.default_name
  portal_message-Asked P F =
      let (buf, (t, r)) = message-ReadsBare fb api B portal P F in
      let w = B.written (ended fb api B portal) in
      let f = B.fields portal in
      (
        buf,
        (
          t,
          record {
            with_size = r.with_size;
            readable = r.readable;
            is_portal = record {
              named =
                  bytes_field-Contents fb w f t r.contents 2 id_offset (B.utf8 id) (omega arith)
                    id_field id_held;
              default_name =
                  bytes_field-Contents fb w f t r.contents 0 name_offset (B.utf8 "portal")
                    (omega arith) name_field name_held;
              sized = size-float fb w t five (f 1) (r.contents.field 1 (omega arith)) size_field;
            };
          },
        ),
      )

  -- The two discovery nodes after the portal came to the first, and its publication to the second.
  pub record Known (network : Topic → Bytes → Result (Unit {0})) (w : Directory) (buf : Bytes)
      (fs : Fs) (message : Bytes) (p : Table) : Type 0 where
    pub entered :
        Dict.lookup (fb.text (B.utf8 id)) (create_portal fb api network buf (fs, w)).1.1.portal_list
        ≡ some p
    pub published :
        (create_portal fb api network buf (fs, w)).1.1.published
        ≡ w.published ++ (portals, message) ∷ []
    pub same : IsPortal fb B.utf8 five id p

  publish_step :
      (network : Topic → Bytes → Result (Unit {0})) (topic : Topic) (bytes : Bytes) (fs : Fs)
      (w : Directory)
      → network topic bytes ≡ ok tt
      → publish network topic bytes (fs, w)
        ≡ (ok tt, (fs, record w { published = w.published ++ (topic, bytes) ∷ [] }))
  unfolding publish
  publish_step network topic bytes fs w carried = ground (arith, carried)

  -- The directory behind a request that can be read and a network that takes the publication.
  abbrev behind : Directory → Table → Directory
  behind w t =
      let entered = Shared.remember_portal (fb.text (Portal.short_id fb t)) t w in
      record entered { published = w.published ++ (portals, Shared.portal_message fb api t) ∷ [] }

  create_portal_run :
      (network : Topic → Bytes → Result (Unit {0})) (w : Directory) (buf : Bytes) (fs : Fs)
      (t : Table)
      → get_root_as fb buf 0 ≡ ok t
      → ((bytes : Bytes) → network portals bytes ≡ ok tt)
      → create_portal fb api network buf (fs, w) ≡ (ok tt, (fs, behind w t))
  unfolding create_portal
  create_portal_run network w buf fs t read carried =
      let message = Shared.portal_message fb api t in
      let entered = Shared.remember_portal (fb.text (Portal.short_id fb t)) t w in
      then_ok (lift (get_root_as fb buf 0)) _ (fs, w) (ap (λ r. (r, (fs, w))) read)
        (handle-ok (publish network portals message) (λ _. pure tt) pure (fs, entered)
          (publish_step network portals message fs entered (carried message)))

  create_portal-Known :
      (network : Topic → Bytes → Result (Unit {0})) (w : Directory) (buf : Bytes) (fs : Fs)
      (t : Table)
      → IsPortal fb B.utf8 five id t
      → get_root_as fb buf 0 ≡ ok t
      → ((bytes : Bytes) → network portals bytes ≡ ok tt)
      → Known network w buf fs (Shared.portal_message fb api t) t
  create_portal-Known network w buf fs t is read carried =
      let run = create_portal_run network w buf fs t read carried in
      record {
        entered =
            ap (λ r. Dict.lookup (fb.text (B.utf8 id)) r.1.1.portal_list) run
            ∙ ground (
              arith,
              ap fb.text is.named,
              Dict.lookup-insert (fb.text (B.utf8 id)) (fb.text (Portal.short_id fb t)) t
                  w.portal_list,
            );
        published = ap (λ r. r.1.1.published) run;
        same = is;
      }

  -- The request behind its size, what the first node publishes of it, and the two portals entered.
  pub record Spread (P : SizePrefix fb) (network : Topic → Bytes → Result (Unit {0}))
      (w : Directory) (fs : Fs) (self from : PeerId) (base : FilePath) (fs2 : Fs) (w2 : Directory)
      (buf message : Bytes) (p t : Table) : Type 0 where
    pub with_size : portal_message api five id ≡ P.prefix (length buf) ++ buf
    pub known : Known network w buf fs message p
    pub entered :
        Dict.lookup
          (fb.text (B.utf8 id))
          (receive_portal fb self base from message (fs2, w2)).1.1.portal_list
        ≡ some t
    pub same : IsPortal fb B.utf8 five id t

  -- A portal that the application makes comes to every discovery node: the node that is asked reads
  -- the request behind its size, enters a portal with the new id, the name "portal" and the size
  -- five, and publishes one message; another node that hears of it and does not know the id enters
  -- a portal with the same id, name and size. The network takes the publication, and the builder and
  -- the tables of FlatBuffers are lawful.
  pub create_portal-receive_portal :
      (P : SizePrefix fb) (network : Topic → Bytes → Result (Unit {0})) (w : Directory) (fs : Fs)
      (self from : PeerId) (base : FilePath) (fs2 : Fs) (w2 : Directory)
      → Framed fb api B P
      → ((bytes : Bytes) → network portals bytes ≡ ok tt)
      → from ≢ self
      → Dict.lookup (fb.text (B.utf8 id)) w2.portal_list ≡ none
      → (buf : Bytes) × ((message : Bytes) × ((p : Table) × ((t : Table) × Spread P network w fs
                self from base fs2 w2 buf message p t)))
  create_portal-receive_portal P network w fs self from base fs2 w2 F carried other unknown =
      let (buf, (p, r)) = portal_message-Asked P F in
      let named = ap fb.text r.is_portal.named in
      let message = Shared.portal_message fb api p in
      let (t, (entered, same)) =
        receive_portal-portal_message fb api B p self from base fs2 w2 other
          (ap (λ i. Dict.lookup i w2.portal_list) named ∙ unknown) in
      (
        buf,
        (
          message,
          (
            p,
            (
              t,
              record {
                with_size = r.with_size;
                known = create_portal-Known network w buf fs p r.is_portal r.readable carried;
                entered =
                    ap
                      (λ i.
                        Dict.lookup i
                          (receive_portal fb self base from message (fs2, w2)).1.1.portal_list)
                      (sym named)
                    ∙ entered;
                same = IsPortal-SamePortal fb B.utf8 five id p t r.is_portal same;
              },
            ),
          ),
        ),
      )
