-- ===== src/Packets/PropertyWrite.antt =====
-- src/v5/property/values.rs: what the writers of properties write.
use rust_mqtt.Prelude.{ℕ, Bool, true, false, Option, none, some, List, [], ◌∷◌, arith}
use rust_mqtt.Wire.Transport.{Writer, IsOpen}
use rust_mqtt.Wire.WriteVar.{Appends}
use rust_mqtt.Wire.Ints.{write_bool}
use rust_mqtt.Wire.Compose.{Appends-then, Appends-nothing}
use rust_mqtt.Packets.PropertyType.{PropertyType, identifier, write_property_type}
use rust_mqtt.Packets.Property.{Write, write_property, write_optional}
use rust_mqtt.Packets.PubackWrite.{write_type-takes, write_byte-takes}
use rust_mqtt.Packets.PropertyBytes.{property_bytes, optional_bytes, Sometimes}
use rust_mqtt.Packets.PublishBytes.{bool_bytes}

module _ (w : Writer) (contents : w.Sink → List ℕ) (open_sink : IsOpen w contents) where
  pub write_bool-takes :
      (s : w.Sink) (v : Bool) → Appends w contents open_sink s (write_bool w s v) (bool_bytes v)
  unfolding write_bool
  write_bool-takes s true = write_byte-takes w contents open_sink s 1 (omega arith)
  write_bool-takes s false = write_byte-takes w contents open_sink s 0 (omega arith)

  module _ {A : Type 0} (write : w.Sink → A → Write w) (enc : A → List ℕ) (P : A → Type 0)
      (takes : (s : w.Sink) (v : A)
        → P v
        → Appends w contents open_sink s (write s v) (enc v)) where
    pub write_optional-takes :
        (s : w.Sink) (o : Option A)
        → Sometimes P o
        → Appends w contents open_sink s (write_optional w write s o) (optional_bytes enc o)
    unfolding write_optional optional_bytes
    write_optional-takes s none h = Appends-nothing w contents open_sink s
    write_optional-takes s (some v) h = takes s v h

    pub write_property-takes :
        (t : PropertyType) (s : w.Sink) (v : A)
        → P v
        → Appends w contents open_sink s (write_property w t write s v) (property_bytes t enc v)
    unfolding write_property
    write_property-takes t s v h =
        Appends-then w contents open_sink s (write_property_type w s t) (λ s' _. write s' v)
          (identifier t ∷ []) (enc v) (write_type-takes w contents open_sink s t)
          (λ s'. takes s' v h)

  -- A property that may be left out.
  pub optional_property-takes :
      {A : Type 0} (write : w.Sink → A → Write w) (enc : A → List ℕ) (P : A → Type 0)
      → ((s : w.Sink) (v : A) → P v → Appends w contents open_sink s (write s v) (enc v))
      → (t : PropertyType) (s : w.Sink) (o : Option A) → Sometimes P o
      → Appends w contents open_sink s
          (write_optional w (write_property w t write) s o)
          (optional_bytes (property_bytes t enc) o)
  optional_property-takes write enc P takes t s o h =
      write_optional-takes (write_property w t write) (property_bytes t enc) P
        (write_property-takes write enc P takes t) s o h
