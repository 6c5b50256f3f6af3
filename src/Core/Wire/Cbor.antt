-- ===== src/Core/Wire/Cbor.antt =====
-- The CBOR form of mesh events. `ciborium` is a parameter: its reader takes one value off the front
-- of what it reads.
use furcate_mesh.Prelude.{◌≡◌, ◌++◌, Option, some, ok, Result, ok_or, ◌>>=◌, [], arith}
use furcate_mesh.Prelude.Text.{Bytes}
use furcate_mesh.Core.Event.{MeshEvent}
use furcate_mesh.Core.Extensions.{MeshError, encoding}

pub record Ciborium (F : Type 0) : Type 0 where
  pub into_writer : MeshEvent F → Option Bytes
  pub from_reader : Bytes → Option (MeshEvent F × Bytes)

-- What is written is read back, and what stands behind it is left.
pub record IsCiborium {F : Type 0} (c : Ciborium F) : Type 0 where
  pub round_trip :
      (e : MeshEvent F) (b rest : Bytes)
      → c.into_writer e ≡ some b
      → c.from_reader (b ++ rest) ≡ some (e, rest)

module _ {F : Type 0} (c : Ciborium F) where
  unfoldable pub to_vec : MeshEvent F → Result MeshError Bytes
  to_vec event = ok_or (c.into_writer event) (encoding [])

  unfoldable pub from_slice : Bytes → Result MeshError (MeshEvent F)
  from_slice bytes = do (event, rest) ← ok_or (c.from_reader bytes) (encoding []); ok event

  -- A frame is read back, also where other bytes follow it.
  from_slice-to_vec :
      (laws : IsCiborium c) (e : MeshEvent F) (b rest : Bytes)
      → to_vec e ≡ ok b
      → from_slice (b ++ rest) ≡ ok e
  unfolding to_vec from_slice
  from_slice-to_vec laws e b rest h = ground (arith, h, laws.round_trip e b rest)
