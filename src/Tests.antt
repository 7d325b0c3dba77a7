-- ===== src/Tests.antt =====
-- Tests of the definitions on small inputs, and the theorems applied to such inputs.
mod LinkedList
mod Ring
mod Node
mod Cluster
mod Map
mod Text
mod Clock
mod Queue
mod LocalNode
mod Request
mod System
mod Message
mod Threads
mod Route
mod NodeMethods
mod Server
