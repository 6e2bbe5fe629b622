-- ===== src/Client/Status/Tests.antt =====
-- The status of a queue with two jobs, and the theorem of Client/Status at it.
use vibe_voice_vendor.Base.{filter, length, ◌≡◌, ◌∷◌, ◌++◌, Text, codes, decimal, Fraction}
use vibe_voice_vendor.Models.{is_queued}
use vibe_voice_vendor.Queue.Status.{get_queue_info}
use vibe_voice_vendor.Queue.Events.Tests.{lined_up}
use vibe_voice_vendor.Client.Status.{print_status}
use vibe_voice_vendor.Client.Status.Shown.{own_jobs, lines_of, print_status-owned}

-- Whole numbers only.
abbrev rounded : Fraction → Text
rounded x = decimal x.num

print_status-owned_example :
    print_status rounded decimal (get_queue_info (codes "me") lined_up)
    ≡ (codes "Total queued: "
        ++ decimal (length (filter (λ k. is_queued (lined_up.heap k).status) lined_up.jobs)))
      ∷ lines_of rounded decimal
          (codes "me")
          lined_up
          (own_jobs rounded decimal (codes "me") lined_up)
print_status-owned_example = print_status-owned rounded decimal (codes "me") lined_up
