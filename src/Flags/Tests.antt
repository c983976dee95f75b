-- ===== src/Flags/Tests.antt =====
-- The flags of a sample descriptor, set and cleared by the functions of src/acoro.c.
use async_coro.Base.{◌≡◌, refl, pos, true, [], ◌∷◌, ◌>>◌, Returns}
use async_coro.World.Calls.{Call, nonblock_bit, has_bit, set_bit}
use async_coro.World.Samples.{kernel, sample_env, sample_task, alone}
use async_coro.Flags.{crt_set_nonblock, crt_set_block}
use async_coro.Flags.Laws.{nonblock_block_lem}

nonblock_block_lem_example :
    Returns
      (λ r w'.
        (r ≡ 0)
        × (has_bit nonblock_bit (set_bit nonblock_bit (pos 2)) ≡ true)
        × (w'.calls
            ≡ Call.setfl (pos 7) (pos 2)
              ∷ Call.getfl (pos 7)
              ∷ Call.setfl (pos 7) (pos 2050)
              ∷ Call.getfl (pos 7)
              ∷ [])
        × (w'.tasks ≡ (alone sample_task).tasks)
        × (w'.env ≡ sample_env))
      ((crt_set_nonblock kernel (pos 7) >> crt_set_block kernel (pos 7)) (alone sample_task))
nonblock_block_lem_example =
    nonblock_block_lem kernel (pos 7) (alone sample_task) refl refl refl refl refl refl
