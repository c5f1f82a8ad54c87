-- ===== src/Buffer/Append.antt =====
-- `append_buffers` puts the chunks behind the buffer, one after the other.
use emserver.Base.{◌≡◌, sym, ap, ◌∙◌, List, [], ◌∷◌, ◌++◌, append-nil, append_assoc, Bytes, flatten}
use emserver.Buffer.{BufferProcessor, append_buffer, append_buffers}

pub append_buffers-flatten :
    (p : BufferProcessor) (chunks : List Bytes)
    → append_buffers p chunks ≡ record { processing_buffer = p.processing_buffer ++ flatten chunks }
unfolding append_buffers append_buffer
append_buffers-flatten p [] =
    ap (λ d. record { processing_buffer = d }) (sym (append-nil p.processing_buffer))
append_buffers-flatten p (chunk ∷ chunks) =
    append_buffers-flatten (append_buffer p chunk) chunks
    ∙ ap (λ d. record { processing_buffer = d })
        (append_assoc p.processing_buffer chunk (flatten chunks))
