-- ===== src/Dsp.antt =====
-- src/dsp/dsp.cppm: the signal processor. A program is a tree of nodes; `tick` computes one sample.
pub mod Floats
pub mod State
mod Naturals
pub mod Node
pub mod Ast
pub mod Tokens
pub mod Parser
pub mod Program
pub mod Physical
pub mod Eval
pub mod Buffer
