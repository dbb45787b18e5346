-- ===== src/Ir/Gpu.antt =====
-- mlir-backend/ir/gpu.hpp: the size classes and size operations of the host.
use mlir_backend.Prelude.{ℕ, Option, Text, codes, text_eq, if◌then◌else◌, ◌||◌}
use mlir_backend.Ir.Core.{SubExp}

pub record SizeThreshold : Type 0 where
  pub def : Option ℕ
  pub path : Text

pub data SizeClass : Type 0 where
  threshold : SizeThreshold → SizeClass
  grid block_size tile reg_tile local_memory : SizeClass
  bespoke : Text → SizeClass

-- `SizeClassFromName`
unfoldable pub size_class_from_name : Text → SizeClass
unfolding text_eq
size_class_from_name name =
    if text_eq name (codes "grid_size")
    then grid
    else if text_eq name (codes "thread_block_size")
    then block_size
    else if text_eq name (codes "tile_size")
    then tile
    else if text_eq name (codes "reg_tile_size")
    then reg_tile
    else if text_eq name (codes "shared_memory") || text_eq name (codes "local_memory")
    then local_memory
    else bespoke name

pub data SizeOp : Type 0 where
  get_size : Text → SizeClass → SizeOp
  get_size_max : SizeClass → SizeOp
  cmp_size_le : Text → SizeClass → SubExp → SizeOp
  calc_num_blocks : SubExp → Text → SubExp → SizeOp
